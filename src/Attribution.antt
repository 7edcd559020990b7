-- ===== src/Attribution.antt =====
-- plugin/src/samplers/papyrus_attribution.h and papyrus_attribution.cpp: the time per script. The
-- unordered map is the list of its entries; `D` is a `double`, with the tests and the rounding that
-- the decay takes of it; `partial_sort` is a parameter.
pub mod Usage
pub mod Decay
mod Tests
use text.Mathlib.Text.{◌==◌}
use skygraph.Prelude.{
  ℕ, ◌+◌, ◌%◌, ◌^◌, String, Bool, true, false, ◌&&◌, ◌||◌, List, [], ◌∷◌, if◌then◌else◌, length,
  take, min,
}
use skygraph.Prelude

pub record Entry : Type 0 where
  pub name : String
  pub total_us : ℕ
  pub calls_in_window : ℕ

abbrev pub Table : Type 0
Table = List Entry

-- Is a number zero?
abbrev pub is_zero : ℕ → Bool
is_zero n = Prelude.leb n 0

-- The entry of a name that is in the table, or a new one.
unfoldable pub bump : String → ℕ → Table → Table
bump name us [] = record { name = name; total_us = us; calls_in_window = 1 } ∷ []
bump name us (e ∷ t) =
    if e.name == name
    then record e {
      total_us = (e.total_us + us) % 2 ^ 64;
      calls_in_window = (e.calls_in_window + 1) % 2 ^ 64;
    }
      ∷ t
    else e ∷ bump name us t

unfoldable pub add : Table → String → ℕ → Table
unfolding bump
add t name us = if name == "" || is_zero us then t else bump name us t

module _ {D : Type 0} (scaled : D → ℕ → ℕ) where
  unfoldable pub decayed : D → Entry → Entry
  decayed d e = record e {
    total_us = scaled d e.total_us;
    calls_in_window = scaled d e.calls_in_window;
  }

  -- The loop over the table, which erases what has decayed to nothing.
  unfoldable pub decay_all : D → Table → Table
  unfolding decayed
  decay_all d [] = []
  decay_all d (e ∷ t) =
      let e' = decayed d e in
      let rest = decay_all d t in
      if is_zero e'.total_us && is_zero e'.calls_in_window then rest else e' ∷ rest

  unfoldable pub snapshot_top_and_decay :
      (D → Bool) → (D → Bool) → (ℕ → List Entry → List Entry) → Table → ℕ → D → List Entry × Table
  unfolding decay_all
  snapshot_top_and_decay at_most_zero below_one partial_sort t top d =
      let sorted = partial_sort (min top (length t)) t in
      (
        if Prelude.ltb top (length sorted) then take top sorted else sorted,
        if at_most_zero d then [] else if below_one d then decay_all d t else t,
      )

unfoldable pub reset : Table → Table
reset t = []

unfoldable pub size_for_debug : Table → ℕ
size_for_debug t = length t
