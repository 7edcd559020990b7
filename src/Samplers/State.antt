-- ===== src/Samplers/State.antt =====
-- plugin/src/samplers/state_sampler.cpp. What the engine shows of the player is an argument; `F` is a
-- `float`, `D` a `double`.
use text.Mathlib.Text.{◌==◌}
use skygraph.Prelude.{
  ℕ, ◌%◌, ◌^◌, String, Bool, Option, none, some, List, [], ◌∷◌, ◌++◌, if◌then◌else◌,
}
use skygraph.Frame.Cache.{LatestCache, update_state}
use skygraph.Plugin.Records.{Value, Fields, str, nat, num, object, array, end, field, nil, cons}

-- A form has an editor id and a name; a null pointer is `none`.
pub record Form : Type 0 where
  pub editor_id : Option String
  pub name : Option String

pub record Player (F : Type 0) : Type 0 where
  pub parent_cell : Option Form
  pub worldspace : Option Form
  pub position : F × F × F

-- A size that is `none` could not be read.
pub record World (F : Type 0) : Type 0 where
  pub player : Option (Player F)
  pub references : Option (Option ℕ)
  -- high, middle high, middle low, low
  pub processes : Option (Option ℕ × Option ℕ × Option ℕ × Option ℕ)

pub record StateSampler (F D : Type 0) : Type 0 where
  pub cache : LatestCache F D
  pub submitted : List (Value D)

unfoldable pub size_or_zero : Option ℕ → ℕ
size_or_zero none = 0
size_or_zero (some n) = n % 2 ^ 32

-- `none` is the undefined assignment of a null pointer to a string.
unfoldable pub form_name : Option Form → Option String
form_name none = some ""
form_name (some f) = elim (f.editor_id) [
  | none ↦ none
  | some id ↦ if id == "" then f.name else some id
]

unfoldable pub references_of : Option (Option ℕ) → ℕ
unfolding size_or_zero
references_of none = 0
references_of (some n) = size_or_zero n

unfoldable pub actors_of : Option (Option ℕ × Option ℕ × Option ℕ × Option ℕ) → ℕ × ℕ × ℕ × ℕ
unfolding size_or_zero
actors_of none = (0, 0, 0, 0)
actors_of (some (hi, mh, ml, lo)) =
    (size_or_zero hi, size_or_zero mh, size_or_zero ml, size_or_zero lo)

abbrev pub actor_fields : {D : Type 0} → ℕ × ℕ × ℕ × ℕ → Fields D
actor_fields (hi, mh, ml, lo) =
    field "high" (nat hi)
      (field "mid_high" (nat mh) (field "mid_low" (nat ml) (field "low" (nat lo) end)))

-- How a sample ends: what `dump` throws leaves the function.
pub data Ending : Type 0 where
  returned threw undefined_name : Ending

module _ {F D : Type 0} (widen : F → D) where
  abbrev pub state_fields : D → String → String → F × F × F → ℕ × ℕ × ℕ × ℕ → ℕ → Fields D
  state_fields t cell world position actors refs = field "type" (str "state") (
      field "t" (num t) (
        field "cell" (str cell) (
          field "worldspace" (str world) (
            field "player_pos"
              (array (
                cons (num (widen (position.0)))
                  (cons (num (widen (position.1))) (cons (num (widen (position.2))) nil))))
              (field "actor_counts" (object (actor_fields actors))
                (field "loaded_refs" (nat refs) end))))))

  -- The end of `EmitStateOnMainThread`, with the names; `dumps` tells whether `dump` returns.
  unfoldable pub submit_state :
      (Value D → Bool)
      → StateSampler F D
      → D
      → World F
      → F × F × F
      → String
      → String
      → Ending × StateSampler F D
  unfolding references_of actors_of update_state
  submit_state dumps s t w position cell world =
      let actors = actors_of (w.processes) in
      let refs = references_of (w.references) in
      let sent = object (state_fields t cell world position actors refs) in
      let s' = record s {
        cache = update_state (s.cache) cell (actors.0) (actors.1) (actors.2) (actors.3) refs;
      } in
      if dumps sent
      then (returned, record s' { submitted = s.submitted ++ sent ∷ [] })
      else (threw, s')

  -- `EmitStateOnMainThread`
  unfoldable pub emit_state :
      (Value D → Bool) → StateSampler F D → D → World F → Ending × StateSampler F D
  unfolding form_name submit_state
  emit_state dumps s t w = elim (w.player) [
    | none ↦ (returned, s)
    | some p ↦ elim (form_name (p.parent_cell)) [
      | none ↦ (undefined_name, s)
      | some cell ↦ elim (form_name (p.worldspace)) [
        | none ↦ (undefined_name, s)
        | some world ↦ submit_state dumps s t w (p.position) cell world
      ]
    ]
  ]
