-- ===== src/Ring/Refine.antt =====
-- The ring against the bounded queue, over any sequence of calls.
use native.Mathlib.Nat.{one-le-pow}
use skygraph.Prelude.{
  ℕ, zero, suc, ◌+◌, ◌*◌, ◌%◌, ◌^◌, ◌≤◌, ◌<◌, ◌≡◌, refl, ap, true, false, List, [], ◌∷◌, ◌++◌, none,
  some, arith, ltb, ◌==◌, if◌then◌else◌, length, length-replicate, Bool-cases, inl, inr, ◌⊎◌,
}
use skygraph.Ring.{
  Ring, size_mod, of_capacity, init, try_push, try_pop, dropped_count, round_up_pow2,
}
use skygraph.Ring.Capacity.{round_up_pow2_lem}
use skygraph.Ring.Queue
use skygraph.Ring.Queue.{Queue, Op, Reply, push, pop, count, pushed, popped, drops, serve}
use skygraph.Ring.State.{
  Represents, Represents-push, Represents-drop, try_push-full, try_push-room, try_pop-empty,
  try_pop-some, Represents-taken,
}

-- a client's calls in order, with what each returns
unfoldable pub run {ℓ} : {A : Type ℓ} → (A → A) → Ring A → List (Op A) → List (Reply A)
unfolding try_push try_pop dropped_count
run moved r [] = []
run moved r (push x ∷ ops) = let (b, r') = try_push r x in pushed b ∷ run moved r' ops
run moved r (pop ∷ ops) = let (b, out, r') = try_pop moved r in popped b out ∷ run moved r' ops
run moved r (count ∷ ops) = drops (dropped_count r) ∷ run moved r ops

module _ {A : Type 0} (moved : A → A) where
  run-serve :
      (k c : ℕ) (ops : List (Op A)) (xs : List A) (n : ℕ) (r : Ring A)
      → Represents r k c xs
      → r.dropped ≡ n % size_mod
      → run moved r ops ≡ serve (2 ^ k) (record { items = xs; refused = n }) ops
  unfolding run serve
  run-serve k c [] xs n r rep d = refl
  run-serve k c (push x ∷ ops) xs n r rep d = elim (Bool-cases (ltb (length xs) (2 ^ k))) [
    | inl free ↦
        rw (try_push-room rep x free, free)
          (ap (◌∷◌ (pushed true))
            (run-serve k c ops (xs ++ x ∷ []) n _ (Represents-push rep x free) d))
    | inr full ↦
        rw (try_push-full rep x full, full)
          (ap (◌∷◌ (pushed false))
            (run-serve k c ops xs (n + 1) _ (Represents-drop rep _) (omega arith)))
  ]
  run-serve k c (pop ∷ ops) [] n r rep d =
      rw (try_pop-empty moved rep) (ap (◌∷◌ (popped false none)) (run-serve k c ops [] n r rep d))
  run-serve k c (pop ∷ ops) (x ∷ xs) n r rep d = rw (try_pop-some moved rep) (
      ap (◌∷◌ (popped true (some x)))
        (run-serve k (suc c) ops xs n _ (Represents-taken moved rep) d))
  run-serve k c (count ∷ ops) xs n r rep d = cc (run-serve k c ops xs n r rep d)

pub of_capacity-Represents :
    {A : Type 0} (blank : A) (k : ℕ) → k < 64 → Represents (of_capacity blank (2 ^ k)) k 0 []
of_capacity-Represents blank k h = record {
  power = refl;
  small = h;
  masked = refl;
  room = length-replicate (2 ^ k) blank;
  tail_at = refl;
  head_at = refl;
  fits = omega arith;
  holds = tt;
}

round_up_pow2_one : round_up_pow2 65 1 ≡ some 1
unfolding round_up_pow2
round_up_pow2_one = refl

init-some :
    {A : Type 0} (blank : A) (hint v c : ℕ)
    → (if hint == 0 then 1 else hint) ≡ v
    → round_up_pow2 65 v ≡ some c
    → init blank 65 hint ≡ some (of_capacity blank c)
unfolding init
init-some blank hint v c p e = rw (p, e, init)

-- What the constructor makes of a hint.
pub init_lem :
    {A : Type 0} (blank : A) (hint : ℕ)
    → hint ≤ 2 ^ 63
    → (k : ℕ) × (k < 64)
      × (init blank 65 hint ≡ some (of_capacity blank (2 ^ k)))
      × (hint ≤ 2 ^ k)
      × ((k ≡ 0) ⊎ (2 ^ k < 2 * hint))
init_lem blank zero h =
    (0, omega arith, init-some blank 0 1 1 refl round_up_pow2_one, omega arith, inl refl)
init_lem blank (suc hint) h =
    let (k, lt, e, lo, hi) = round_up_pow2_lem (suc hint) h in
    (k, lt, init-some blank (suc hint) (suc hint) (2 ^ k) (ground arith) e, lo, hi)

-- For a capacity hint of at most 2^63 the constructor ends, and the ring that it makes has room
-- for at least as many records as the hint says (and for fewer than twice as many, unless the hint
-- is 0 or 1). From then on no sequence of pushes, pops and reads of the drop counter, from one
-- caller at a time, tells the ring from a queue of that size.
pub run_refines :
    {A : Type 0} (blank : A) (moved : A → A) (hint : ℕ)
    → hint ≤ 2 ^ 63
    → (r : Ring A) × (init blank 65 hint ≡ some r)
      × (hint ≤ r.capacity)
      × (1 ≤ r.capacity)
      × ((r.capacity ≡ 1) ⊎ (r.capacity < 2 * hint))
      × ((ops : List (Op A)) → run moved r ops ≡ serve r.capacity Queue.empty ops)
run_refines blank moved hint h =
    let (k, lt, e, lo, hi) = init_lem blank hint h in
    (
      of_capacity blank (2 ^ k),
      e,
      lo,
      one-le-pow k 2 (omega arith),
      elim hi [ inl z ↦ inl (rw z) | inr low ↦ inr low ],
      λ ops. run-serve moved k 0 ops [] 0 _ (of_capacity-Represents blank k lt) refl,
    )
