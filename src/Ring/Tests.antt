-- ===== src/Ring/Tests.antt =====
-- The theorems on the ring at concrete rings and schedules, and runs of the code.
use skygraph.Prelude.{
  ℕ, ◌*◌, ◌^◌, ◌≤◌, ◌<◌, ◌≡◌, refl, ◌⊎◌, true, false, none, some, List, [], ◌∷◌, ◌++◌, arith,
  length,
}
use skygraph.Ring.{Ring, of_capacity, init, round_up_pow2}
use skygraph.Ring.Capacity.{round_up_pow2_lem}
use skygraph.Ring.Queue
use skygraph.Ring.Queue.{Op, push, pop, count, pushed, popped, drops, serve}
use skygraph.Ring.State.{Represents}
use skygraph.Ring.Refine.{run, run_refines, of_capacity-Represents}
use skygraph.Ring.Threads.{Turn, starts, pushes, pops, schedule, at_rest}
use skygraph.Ring.Threads.Single.{single_producer}
use skygraph.Ring.Threads.Race.{both_at_once, two_producers_lose}

abbrev clear : ℕ → ℕ
clear x = 0

abbrev small_ring : Ring ℕ
small_ring = of_capacity 0 2

abbrev calls : List (Op ℕ)
calls = push 5 ∷ push 6 ∷ push 7 ∷ count ∷ pop ∷ push 8 ∷ pop ∷ pop ∷ pop ∷ []

run-calls :
    run clear small_ring calls
    ≡ pushed true
      ∷ pushed true
      ∷ pushed false
      ∷ drops 1
      ∷ popped true (some 5)
      ∷ pushed true
      ∷ popped true (some 6)
      ∷ popped true (some 8)
      ∷ popped false none
      ∷ []
unfolding run
run-calls = refl

-- one push and one pop, interleaved
abbrev turns : List (Turn ℕ)
turns =
    starts 0 9
    ∷ pops
    ∷ pushes 0
    ∷ pushes 0
    ∷ pops
    ∷ pushes 0
    ∷ pops
    ∷ pops
    ∷ pops
    ∷ pops
    ∷ pops
    ∷ []

round_up_pow2_lem_example :
    (k : ℕ) × (k < 64)
    × (round_up_pow2 65 16384 ≡ some (2 ^ k))
    × (16384 ≤ 2 ^ k)
    × ((k ≡ 0) ⊎ (2 ^ k < 2 * 16384))
round_up_pow2_lem_example = round_up_pow2_lem 16384 (omega arith)

-- the capacity -1 of a configuration, as `size_t`
run_refines_example :
    (r : Ring ℕ) × (init 0 65 3 ≡ some r)
    × (3 ≤ r.capacity)
    × (1 ≤ r.capacity)
    × ((r.capacity ≡ 1) ⊎ (r.capacity < 2 * 3))
    × ((ops : List (Op ℕ)) → run clear r ops ≡ serve r.capacity Queue.empty ops)
run_refines_example = run_refines 0 clear 3 (omega arith)

small_ring_made : init 0 65 2 ≡ some small_ring
unfolding init round_up_pow2
small_ring_made = refl

single_producer_example :
    let s = schedule clear (at_rest small_ring) turns in
    (xs : List ℕ) × (s.popped ++ xs ≡ s.accepted) × (length xs ≤ 2)
single_producer_example =
    single_producer 0 clear 2 small_ring (omega arith) small_ring_made turns (omega arith)

two_producers_lose_example :
    let s = schedule clear (at_rest small_ring) (both_at_once 5 6) in
    (s.accepted ≡ 5 ∷ 6 ∷ []) × Represents s.ring 1 0 (6 ∷ []) × (s.ring.dropped ≡ 0)
two_producers_lose_example =
    two_producers_lose clear small_ring 1 0 [] 5 6 (of_capacity-Represents 0 1 (omega arith))
      (omega arith)
