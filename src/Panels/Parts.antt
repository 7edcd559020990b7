-- ===== src/Panels/Parts.antt =====
-- What `DrawDetails` (viewer/src/panels/stutter_panel.cpp) reads of the parts of the frame and of the
-- scripts in a snapshot of the plugin (plugin/src/diagnostics/stutter_flagger.cpp).
use mathlib.Core.List.{Memᴰ}
use mathlib.Core.List.Memᴰ
use text.Mathlib.Text.{◌==◌}
use skygraph.Prelude.{
  ℕ, ◌<◌, ◌^◌, ◌≡◌, inl, inr, refl, sym, ap, ◌∙◌, String, ◌>>=◌, some, List, [], ◌∷◌, All, if-cases,
}
use skygraph.Cpu.{Snapshot}
use skygraph.Attribution.{Entry}
use skygraph.Plugin.Records.{
  Value, Fields, Values, str, nat, num, object, array, end, field, lookup,
}
use skygraph.Plugin.Decode.{items}
use skygraph.Frame.Json.{parts_json, top_json}
use skygraph.Panels.Details.{
  DetailJson, Line, rule, part, scripts_title, script, parts, scripts, script_lines,
}

-- A member of an object that was written comes from one of its fields.
abbrev pub FromField : {D J : Type 0} → (Value D → J) → Fields D → String × J → Type 0
FromField {D} of fs m = (v : Value D) × (lookup fs (m.0) ≡ some v) × (m.1 ≡ of v)

-- What the panel reads of a value that was written and parsed.
pub record DetailDecodes {D J F : Type 0} (json : DetailJson J F) (of : Value D → J) (float : D → F)
    : Type 0 where
  pub members_object :
      (fs : Fields D)
      → (ms : List (String × J)) × (json.members (of (object fs)) ≡ some ms)
        × All (FromField of fs) ms
        × ((key : String) (v : Value D) → lookup fs key ≡ some v → Memᴰ (key, of v) ms)
  pub find_object :
      (fs : Fields D) (key : String) (v : Value D)
      → lookup fs key ≡ some v
      → json.find (of (object fs)) key ≡ some (of v)
  pub string_str : (s : String) → json.as_string (of (str s)) ≡ some s
  pub array_array : (vs : Values D) → json.as_array (of (array vs)) ≡ some (items of vs)
  pub float_num : (d : D) → json.get_float (of (num d)) ≡ some (float d)
  pub u32_nat : (n : ℕ) → n < 2 ^ 32 → json.get_u32 (of (nat n)) ≡ some n
  pub value_u32_nat :
      (fs : Fields D) (key : String) (n : ℕ)
      → n < 2 ^ 32
      → lookup fs key ≡ some (nat n)
      → json.value_u32 (of (object fs)) key ≡ some n
  pub value_u64_nat :
      (fs : Fields D) (key : String) (n : ℕ)
      → n < 2 ^ 64
      → lookup fs key ≡ some (nat n)
      → json.value_u64 (of (object fs)) key ≡ some n
  pub value_string_str :
      (fs : Fields D) (key s : String)
      → lookup fs key ≡ some (str s)
      → json.value_string (of (object fs)) key ≡ some s

-- The time of a script fits into 64 bits.
abbrev pub Small : Entry → Type 0
Small e = e.total_us < 2 ^ 64

module _ {D J F : Type 0} (json : DetailJson J F) (of : Value D → J) (float : D → F)
    (decodes : DetailDecodes json of float) (widen : F → D) where
  -- A line of the breakdown that shows one of its fields.
  abbrev pub PartOf : Fields D → Line F → Type 0
  PartOf fs l =
      (key : String) × (x : F) × (lookup fs key ≡ some (num (widen x)))
      × (l ≡ part key (float (widen x)))

  abbrev AllFloats : Fields D → Type 0
  AllFloats fs =
      (key : String) (v : Value D) → lookup fs key ≡ some v → (x : F) × (v ≡ num (widen x))

  end-AllFloats : AllFloats end
  unfolding lookup
  end-AllFloats key v e = cc

  field-AllFloats :
      (name : String) (x : F) (fs : Fields D)
      → AllFloats fs
      → AllFloats (field name (num (widen x)) fs)
  unfolding lookup
  field-AllFloats name x fs h key v =
      if-cases (λ o. o ≡ some v → (y : F) × (v ≡ num (widen y))) (name == key)
        (some (num (widen x))) (lookup fs key) (λ e p. (x, cc)) (λ e p. h key v p)

  parts-AllFloats : (bd : Snapshot F) (other : F) → AllFloats (parts_json widen bd other)
  parts-AllFloats bd other = field-AllFloats _ _ _ (
      field-AllFloats _ _ _ (
        field-AllFloats _ _ _
          (field-AllFloats _ _ _ (field-AllFloats _ _ _ (field-AllFloats _ _ _ end-AllFloats)))))

  -- The line of a member that is read.
  part_lem :
      (k key : String) (d : D) (j : J) (f : F)
      → ◌≡◌ {A = String × J} (k, of (num d)) (key, j)
      → json.get_float j ≡ some f
      → part k (float d) ≡ part key f
  part_lem k key d j f e read =
      let member : of (num d) ≡ j = ap (λ (p : String × J). p.1) e in
      let same : some (float d) ≡ some f =
        sym (decodes.float_num d) ∙ ap (json.get_float) member ∙ read in
      cc (ap (λ (p : String × J). p.0) e, same)

  -- The lines of the breakdown.
  parts-some :
      (fs : Fields D) (ms : List (String × J))
      → AllFloats fs
      → All (FromField of fs) ms
      → (ps : List (Line F)) × (parts json ms ≡ some ps)
        × All (PartOf fs) ps
        × ((k : String) (d : D) → Memᴰ (k, of (num d)) ms → Memᴰ (part k (float d)) ps)
  unfolding parts
  parts-some fs [] h a = ([], refl, tt, λ k d m. absurd (Memᴰ.not-nil m))
  parts-some fs ((key, j) ∷ ms) h a =
      let (v, found, e) = a.0 in
      let (x, same) = h key v found in
      let read : json.get_float j ≡ some (float (widen x)) =
        ap (json.get_float) (e ∙ ap of same) ∙ decodes.float_num (widen x) in
      let (ps, rest, good, all) = parts-some fs ms h a.1 in
      (
        part key (float (widen x)) ∷ ps,
        rw (read, rest, parts) refl,
        ((key, x, found ∙ ap some same, refl), good),
        λ k d m. elim (Memᴰ.cases_cons m) [
          | inl e ↦ Memᴰ.head (part_lem k key d j (float (widen x)) e read)
          | inr m' ↦ Memᴰ.tail (all k d m')
        ],
      )

  -- The lines of the six parts.
  abbrev pub part_lines : Snapshot F → F → List (Line F)
  part_lines bd other =
      part "papyrus_ms" (float (widen (bd.papyrus_ms)))
      ∷ part "havok_ms" (float (widen (bd.havok_ms)))
      ∷ part "ai_ms" (float (widen (bd.ai_ms)))
      ∷ part "render_submit_ms" (float (widen (bd.render_submit_ms)))
      ∷ part "streaming_ms" (float (widen (bd.streaming_ms)))
      ∷ part "other_ms" (float (widen other))
      ∷ []

  -- Exactly the lines of the six parts, in some order.
  abbrev pub Breakdown : Snapshot F → F → List (Line F) → Type 0
  Breakdown bd other ps =
      All (PartOf (parts_json widen bd other)) ps × All (λ l. Memᴰ l ps) (part_lines bd other)

  -- What the iteration over the breakdown gives.
  pub members-Breakdown :
      (bd : Snapshot F) (other : F)
      → (ms : List (String × J)) × (ps : List (Line F)) × (json.members
            (of (object (parts_json widen bd other)))
          ≡ some ms)
        × (parts json ms ≡ some ps)
        × Breakdown bd other ps
  unfolding lookup
  members-Breakdown bd other =
      let (ms, iterated, fields, present) = decodes.members_object (parts_json widen bd other) in
      let (ps, read, good, all) =
        parts-some (parts_json widen bd other) ms (parts-AllFloats bd other) fields in
      let line =
        λ (key : String) (x : F)
            (e : lookup (parts_json widen bd other) key ≡ some (num (widen x))).
          all key (widen x) (present key (num (widen x)) e) in
      (
        ms,
        ps,
        iterated,
        read,
        (
          good,
          (
            line "papyrus_ms" (bd.papyrus_ms) refl,
            (
              line "havok_ms" (bd.havok_ms) refl,
              (
                line "ai_ms" (bd.ai_ms) refl,
                (
                  line "render_submit_ms" (bd.render_submit_ms) refl,
                  (line "streaming_ms" (bd.streaming_ms) refl, (line "other_ms" other refl, tt)),
                ),
              ),
            ),
          ),
        ),
      )

  abbrev pub script_of : Entry → Line F
  script_of e = script (e.name) (e.total_us)

  abbrev pub script_rows : List Entry → List (Line F)
  script_rows [] = []
  script_rows (e ∷ es) = script_of e ∷ script_rows es

  scripts-some :
      (es : List Entry)
      → All Small es
      → scripts json (items of (top_json es)) ≡ some (script_rows es)
  unfolding scripts top_json lookup
  scripts-some [] h = refl
  scripts-some (e ∷ es) h =
      let fs : Fields D = field "name" (str (e.name)) (field "us" (nat (e.total_us)) end) in
      rw
        (
          decodes.value_string_str fs "name" (e.name) refl,
          decodes.value_u64_nat fs "us" (e.total_us) h.0 refl,
          scripts-some es h.1,
          scripts,
        )
        refl

  -- The scripts that the stutter's snapshot has, under their title, if there are any.
  abbrev pub top_lines : List Entry → List (Line F)
  top_lines [] = []
  top_lines (e ∷ es) = rule ∷ scripts_title ∷ script_rows (e ∷ es)

  pub top-some :
      (es : List Entry)
      → All Small es
      → script_lines json (items of (top_json es)) ≡ some (top_lines es)
  unfolding top_json
  top-some [] h = refl
  top-some (e ∷ es) h =
      ap (λ o. o >>= (λ ss. some (rule ∷ scripts_title ∷ ss))) (scripts-some (e ∷ es) h)
