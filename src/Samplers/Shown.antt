-- ===== src/Samplers/Shown.antt =====
-- The record of plugin/src/samplers/state_sampler.cpp and the branch of `Ingest` that reads it
-- (viewer/src/state/telemetry_store.cpp).
use text.Mathlib.Text.{◌==◌}
use skygraph.Prelude.{
  ℕ, ◌+◌, ◌%◌, ◌^◌, ◌<◌, ◌≡◌, ◌⊎◌, inl, inr, Bool, true, false, Bool-cases, refl, ap, ◌∙◌, subst,
  ◌>>=◌, String, Option, none, some, List, [], ◌∷◌, ◌++◌, arith,
}
use skygraph.Plugin.Records.{Value, Fields, nat, object, lookup}
use skygraph.Plugin.Decode.{Decodes, string_of-str, u32_of-nat, get_t-num}
use skygraph.Store.{TelemetryStore, StateSnapshot}
use skygraph.Store.Json.{Json, string_of, u32_of}
use skygraph.Store.Decode.{Arg, position_of, position_in, snapshot_of, member}
use skygraph.Store.Ingest.{
  Outcome, done, threw as ingest_threw, ingest, ingest_state, route, kind_of,
}
use skygraph.Samplers.State.{
  Form, Player, World, StateSampler, Ending, returned, threw, size_or_zero, form_name,
  references_of, actors_of, state_fields, actor_fields, submit_state, emit_state,
}

-- A size that the engine tells, of 32 bits; 0 where it could not be read.
abbrev pub size : Option ℕ → ℕ
size none = 0
size (some n) = n % 2 ^ 32

-- The editor id of a form, or its name if that is empty; no form has no name.
abbrev pub Named : Option Form → String → Type 0
Named none name = name ≡ ""
Named (some f) name =
    ((f.editor_id ≡ some name) × ((name == "") ≡ false))
    ⊎ ((f.editor_id ≡ some "") × (f.name ≡ some name))

form_name-Named : (o : Option Form) (name : String) → Named o name → form_name o ≡ some name
unfolding form_name
form_name-Named none name e = cc e
form_name-Named (some f) name (inl (e, k)) = rw (e, k, form_name) refl
form_name-Named (some f) name (inr (e, k)) = rw (e, form_name) k

-- The four sizes of the actors.
abbrev pub sizes : Option (Option ℕ × Option ℕ × Option ℕ × Option ℕ) → ℕ × ℕ × ℕ × ℕ
sizes lists = (
  size (lists >>= λ a. a.0),
  size (lists >>= λ a. a.1),
  size (lists >>= λ a. a.2),
  size (lists >>= λ a. a.3),
)

size_or_zero_lem : (n : Option ℕ) → size_or_zero n ≡ size n
unfolding size_or_zero
size_or_zero_lem none = refl
size_or_zero_lem (some n) = refl

actors_of_lem : (a : Option (Option ℕ × Option ℕ × Option ℕ × Option ℕ)) → actors_of a ≡ sizes a
unfolding actors_of
actors_of_lem none = refl
actors_of_lem (some (hi, mh, ml, lo)) =
    cc (size_or_zero_lem hi, size_or_zero_lem mh, size_or_zero_lem ml, size_or_zero_lem lo)

references_of_lem : (n : Option (Option ℕ)) → references_of n ≡ size (n >>= λ m. m)
unfolding references_of
references_of_lem none = refl
references_of_lem (some n) = size_or_zero_lem n

size_bound : (n : Option ℕ) → size n < 2 ^ 32
size_bound none = omega arith
size_bound (some n) = omega arith

module _ {D F D' : Type 0} (float : D → F) (double : D → D') (widen : F → D) (t : D)
    (cell world : String) (position : F × F × F) (actors : ℕ × ℕ × ℕ × ℕ) (refs : ℕ) where
  -- The snapshot that the viewer shows.
  abbrev pub shown : StateSnapshot F D'
  shown = record {
    t = double t;
    cell = cell;
    worldspace = world;
    player_pos =
        (float (widen (position.0)), float (widen (position.1)), float (widen (position.2)));
    actors_high = actors.0;
    actors_mid_high = actors.1;
    actors_mid_low = actors.2;
    actors_low = actors.3;
    loaded_refs = refs;
  }

module _ {D J F D' : Type 0} (view : Json J F D') (of : Value D → J) (float : D → F)
    (double : D → D') (decodes : Decodes view of float double) (widen : F → D)
    (format : String → List (Arg F) → String) (t : D) (cell world : String) (position : F × F × F)
    (actors : ℕ × ℕ × ℕ × ℕ) (refs : ℕ) where
  abbrev mine : StateSnapshot F D'
  mine = shown float double widen t cell world position actors refs

  abbrev sent : J
  sent = of (object (state_fields widen t cell world position actors refs))

  sent_type : string_of view sent "type" ≡ "state"
  unfolding lookup
  sent_type = string_of-str view of float double decodes _ "type" "state" refl

  sent_position : position_of view format sent ≡ some (mine.player_pos)
  unfolding lookup position_of position_in
  sent_position =
      ap
        (λ o.
          member o
            (λ q.
              member (view.elements q) (position_in view format)
                (some (view.zero_float, view.zero_float, view.zero_float)))
            (some (view.zero_float, view.zero_float, view.zero_float)))
        (decodes.find_object _ "player_pos" _ refl)
      ∙ ap
          (λ o.
            member o (position_in view format)
              (some (view.zero_float, view.zero_float, view.zero_float)))
          (decodes.elements_array _)
      ∙ rw
          (
            decodes.get_num_float (widen (position.0)),
            decodes.get_num_float (widen (position.1)),
            decodes.get_num_float (widen (position.2)),
            position_in,
          )
          refl

  module _ (hi : actors.0 < 2 ^ 32) (mh : actors.1 < 2 ^ 32) (ml : actors.2 < 2 ^ 32)
      (lo : actors.3 < 2 ^ 32) (rf : refs < 2 ^ 32) where
    abbrev fs : Fields D
    fs = state_fields widen t cell world position actors refs

    count :
        (key : String) (n : ℕ)
        → lookup {D = D} (actor_fields actors) key ≡ some (nat n)
        → n < 2 ^ 32
        → member (view.find sent "actor_counts") (λ c. u32_of view c key) 0 ≡ n
    unfolding lookup
    count key n e b =
        ap (λ o. member o (λ c. u32_of view c key) 0)
          (decodes.find_object fs "actor_counts" (object (actor_fields actors)) refl)
        ∙ u32_of-nat view of float double decodes (actor_fields actors) key n e b

    sent_snapshot : snapshot_of view format sent (mine.player_pos) ≡ mine
    unfolding lookup snapshot_of
    sent_snapshot = cc (
      get_t-num view of float double decodes fs t refl,
      string_of-str view of float double decodes fs "cell" cell refl,
      string_of-str view of float double decodes fs "worldspace" world refl,
      count "high" (actors.0) refl hi,
      count "mid_high" (actors.1) refl mh,
      count "mid_low" (actors.2) refl ml,
      count "low" (actors.3) refl lo,
      u32_of-nat view of float double decodes fs "loaded_refs" refs refl rf,
    )

    sent-ingest :
        (store : TelemetryStore J F D') (time : ℕ)
        → ingest view format store sent time
          ≡ done (record store {
            total_records = (store.total_records + 1) % 2 ^ 64;
            last_state = some mine;
          })
    unfolding ingest route ingest_state
    sent-ingest store time =
        let counted : TelemetryStore J F D' = record store {
          total_records = (store.total_records + 1) % 2 ^ 64;
        } in
        ap (λ ty. route view format counted sent time ty (kind_of ty)) sent_type
        ∙ ap
            (λ o. elim o as (λ x. Outcome (TelemetryStore J F D')) [
              | none ↦ ingest_threw counted
              | some pos ↦
                  done (record counted { last_state = some (snapshot_of view format sent pos) })
            ])
            sent_position
        ∙ ap (λ s. done (record counted { last_state = some s })) sent_snapshot

-- How a sample with the record `v` ends: the record is submitted, or dump throws and it is not.
abbrev pub Ended :
    {F D : Type 0}
    → (Value D → Bool)
    → StateSampler F D
    → Value D
    → Ending × StateSampler F D
    → Type 0
Ended dumps s v r =
    ((dumps v ≡ true) × (r.0 ≡ returned) × (r.1.submitted ≡ s.submitted ++ v ∷ []))
    ⊎ ((dumps v ≡ false) × (r.0 ≡ threw) × (r.1.submitted ≡ s.submitted))

submit_state-Ended :
    {F D : Type 0} (widen : F → D) (dumps : Value D → Bool) (s : StateSampler F D) (t : D)
    (w : World F) (position : F × F × F) (cell world : String)
    → Ended dumps s
        (object (
          state_fields widen t cell world position
            (actors_of (w.processes))
            (references_of (w.references))))
        (submit_state widen dumps s t w position cell world)
unfolding submit_state
submit_state-Ended widen dumps s t w position cell world =
    let v = object (
      state_fields widen t cell world position (actors_of (w.processes))
        (references_of (w.references))) in
    elim (Bool-cases (dumps v)) [
      | inl e ↦ inl (e, rw (e, submit_state) refl, rw (e, submit_state) refl)
      | inr e ↦ inr (e, rw (e, submit_state) refl, rw (e, submit_state) refl)
    ]

-- While there is a player, whose cell and world space have the given names, a sample makes one record
-- and submits it, unless dump throws; and a viewer's store that ingests the record counts it and
-- shows as its last state what the engine showed: the names (the editor id of the form, or its name
-- if that is empty, nothing where there is no form), the position (through the two conversions of a
-- float) and the sizes modulo 2^32 (0 where one could not be read). Relied on: members that were
-- written are found and read back, 32-bit numbers exactly.
pub emit_state-shown :
    {D J F D' : Type 0} (view : Json J F D') (of : Value D → J) (float : D → F) (double : D → D')
    (decodes : Decodes view of float double) (widen : F → D)
    (format : String → List (Arg F) → String) (dumps : Value D → Bool) (s : StateSampler F D)
    (t : D) (w : World F) (p : Player F) (cell world : String) (store : TelemetryStore J F D')
    (time : ℕ)
    → w.player ≡ some p
    → Named (p.parent_cell) cell
    → Named (p.worldspace) world
    → (v : Value D) × Ended dumps s v (emit_state widen dumps s t w)
      × (ingest view format store (of v) time
          ≡ done (record store {
            total_records = (store.total_records + 1) % 2 ^ 64;
            last_state = some (
                shown float double widen t cell world
                  (p.position)
                  (sizes (w.processes))
                  (size (w.references >>= λ n. n)));
          }))
unfolding emit_state
emit_state-shown {D = D} view of float double decodes widen format dumps s t w p cell world store
      time e c k =
    let actors = sizes (w.processes) in
    let refs = size (w.references >>= λ n. n) in
    let v : Value D = object (state_fields widen t cell world (p.position) actors refs) in
    let same : object (
          state_fields widen t cell world (p.position) (actors_of (w.processes))
            (references_of (w.references)))
        ≡ v =
      cc (actors_of_lem (w.processes), references_of_lem (w.references)) in
    (
      v,
      subst (λ x. Ended dumps s x (emit_state widen dumps s t w)) same
          (rw
            (
              e,
              form_name-Named (p.parent_cell) cell c,
              form_name-Named (p.worldspace) world k,
              emit_state,
            )
            (submit_state-Ended widen dumps s t w (p.position) cell world)),
      sent-ingest view of float double decodes widen format t cell world (p.position) actors refs
          (size_bound _) (size_bound _) (size_bound _) (size_bound _) (size_bound _) store time,
    )
