-- ===== src/Store/Scripts.antt =====
-- The Papyrus records of viewer/src/state/telemetry_store.cpp: the hot scripts of the last snapshot
-- and the time per script since the session began.
use text.Mathlib.Text.{◌==◌}
use text.Mathlib.TextEquality.{eq_iff}
use skygraph.Prelude.{
  ◌≡◌, refl, sym, ap, ◌∙◌, String, false, List, [], ◌∷◌, ◌++◌, map, append-nil, append_assoc,
  if◌then◌else◌, arith,
}
use skygraph.Store.{HotScript}
use skygraph.Store.Json.{Json, get, string_of, u64_of, float_of}

-- The unordered map, as a list of its entries.
module _ {ℓ} {V : Type ℓ} where
  abbrev pub value_of : V → String → List (String × V) → V
  value_of default k [] = default
  value_of default k ((j, v) ∷ m) = if j == k then v else value_of default k m

  -- `m[k] = f(m[k])`, where a missing key is `default` first.
  unfoldable pub modify : V → (V → V) → String → List (String × V) → List (String × V)
  modify default f k [] = (k, f default) ∷ []
  modify default f k ((j, v) ∷ m) = if j == k then (j, f v) ∷ m else (j, v) ∷ modify default f k m

module _ {V : Type 0} where
  value_of-modify :
      (default : V) (f : V → V) (k n : String) (m : List (String × V))
      → value_of default n (modify default f k m)
        ≡ (if k == n then f (value_of default n m) else value_of default n m)
  unfolding modify
  value_of-modify default f k n [] = refl
  value_of-modify default f k n ((j, v) ∷ m) =
      ground (arith, eq_iff k n, eq_iff j k, eq_iff j n, value_of-modify default f k n m)

module _ {J F D : Type 0} (json : Json J F D) where
  unfoldable pub hot_script : J → HotScript F D
  unfolding get
  hot_script j = record {
    name = string_of json j "name";
    us_window = u64_of json j "us_window";
    calls_per_sec = float_of json j "cps";
    pct_frame = float_of json j "pct_frame";
  }

  unfoldable pub accumulate : List (String × D) → HotScript F D → List (String × D)
  unfolding modify
  accumulate m s =
      if s.name == ""
      then m
      else modify json.zero_double (λ d. json.add d (json.of_u64 s.us_window)) s.name m

  -- The loop over the array of scripts: the hot scripts and the totals.
  unfoldable pub ingest_scripts :
      List (HotScript F D) → List (String × D) → List J → List (HotScript F D) × List (String × D)
  unfolding hot_script accumulate
  ingest_scripts hot m [] = (hot, m)
  ingest_scripts hot m (j ∷ js) =
      ingest_scripts (hot ++ hot_script j ∷ []) (accumulate m (hot_script j)) js

  -- One time after the other, for the scripts of one name.
  abbrev pub spent : String → D → List (HotScript F D) → D
  spent n d [] = d
  spent n d (s ∷ ss) = spent n (if s.name == n then json.add d (json.of_u64 s.us_window) else d) ss

  value_of-accumulate :
      (n : String) (m : List (String × D)) (s : HotScript F D)
      → (n == "") ≡ false
      → value_of json.zero_double n (accumulate m s) ≡ (
          if s.name == n
          then json.add (value_of json.zero_double n m) (json.of_u64 s.us_window)
          else value_of json.zero_double n m)
  unfolding accumulate
  value_of-accumulate n m s h = ground (
    arith,
    h,
    eq_iff s.name "",
    eq_iff s.name n,
    eq_iff n "",
    value_of-modify json.zero_double (λ d. json.add d (json.of_u64 s.us_window)) s.name n m,
  )

  -- The snapshot's scripts are listed in order after what is there, and the total of every script
  -- name (but the empty one) goes up by its times in the snapshot, in order.
  pub ingest_scripts_lem :
      (n : String) (hot : List (HotScript F D)) (m : List (String × D)) (js : List J)
      → (n == "") ≡ false
      → let (hot', m') = ingest_scripts hot m js in
        (hot' ≡ hot ++ map hot_script js)
        × (value_of json.zero_double n m'
            ≡ spent n (value_of json.zero_double n m) (map hot_script js))
  unfolding ingest_scripts
  ingest_scripts_lem n hot m [] h = (sym (append-nil hot), refl)
  ingest_scripts_lem n hot m (j ∷ js) h =
      let (p, q) =
        ingest_scripts_lem n (hot ++ hot_script j ∷ []) (accumulate m (hot_script j)) js h in
      (
        p ∙ append_assoc hot (hot_script j ∷ []) (map hot_script js),
        q ∙ ap (λ d. spent n d (map hot_script js)) (value_of-accumulate n m (hot_script j) h),
      )
