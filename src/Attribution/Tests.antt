-- ===== src/Attribution/Tests.antt =====
-- The theorems on the attribution at a small table and a factor of 0.55.
use skygraph.Prelude.{
  ℕ, ◌+◌, ◌*◌, ◌/◌, ◌≤◌, ◌≡◌, refl, String, Bool, true, false, List, [], ◌∷◌, map, All, arith,
}
use skygraph.Attribution.{Entry, Table, snapshot_top_and_decay}
use skygraph.Attribution.Decay.{Used, snapshot-Used}

abbrev small_table : Table
small_table = record { name = "a"; total_us = 1; calls_in_window = 1 } ∷ []

abbrev calls : List (String × ℕ)
calls = ("b", 3) ∷ ("", 4) ∷ ("a", 0) ∷ ("a", 6) ∷ []

-- `round(k * 0.55)`
abbrev rounded : ℕ → ℕ → ℕ
rounded percent k = (k * percent + 50) / 100

abbrev never : ℕ → Bool
never d = false

abbrev always : ℕ → Bool
always d = true

abbrev unsorted : ℕ → List Entry → List Entry
unsorted n t = t

rounded-positive : (k : ℕ) → 1 ≤ k → 1 ≤ rounded 55 k
rounded-positive k h = omega arith

snapshot-Used_example :
    let t' = (snapshot_top_and_decay rounded never always unsorted small_table 16 55).1 in
    (map (λ (e : Entry). e.name) t' ≡ map (λ (e : Entry). e.name) small_table) × All Used t'
snapshot-Used_example =
    snapshot-Used rounded never always unsorted small_table 16 55 refl rounded-positive
      (omega arith, tt)
