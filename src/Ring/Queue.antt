-- ===== src/Ring/Queue.antt =====
-- What the ring promises: a first-in first-out queue of bounded size, which refuses the newest
-- record when it is full and counts the refusals (modulo 2^64).
use skygraph.Prelude.{
  ℕ, ◌+◌, ◌%◌, ◌^◌, Bool, true, false, Option, none, some, List, [], ◌∷◌, ◌++◌, ltb, if◌then◌else◌,
  length,
}

pub record Queue {ℓ} (A : Type ℓ) : Type ℓ where
  pub items : List A
  pub refused : ℕ

-- The calls that a client makes, and what each returns: for a pop, the Boolean and what went
-- through the out parameter.
pub data Op {ℓ} (A : Type ℓ) : Type ℓ where
  push : A → Op A
  pop : Op A
  count : Op A

pub data Reply {ℓ} (A : Type ℓ) : Type ℓ where
  pushed : Bool → Reply A
  popped : Bool → Option A → Reply A
  drops : ℕ → Reply A

module _ {ℓ} {A : Type ℓ} where
  unfoldable pub enqueue : ℕ → Queue A → A → Bool × Queue A
  enqueue size q x =
      if ltb (length q.items) size
      then (true, record q { items = q.items ++ x ∷ [] })
      else (false, record q { refused = q.refused + 1 })

  unfoldable pub dequeue : Queue A → Bool × Option A × Queue A
  dequeue q = elim q.items [
    | [] ↦ (false, none, q)
    | x ∷ xs ↦ (true, some x, record q { items = xs })
  ]

  unfoldable pub serve : ℕ → Queue A → List (Op A) → List (Reply A)
  unfolding enqueue dequeue
  serve size q [] = []
  serve size q (push x ∷ ops) = let (b, q') = enqueue size q x in pushed b ∷ serve size q' ops
  serve size q (pop ∷ ops) = let (b, out, q') = dequeue q in popped b out ∷ serve size q' ops
  serve size q (count ∷ ops) = drops (q.refused % 2 ^ 64) ∷ serve size q ops

  abbrev pub empty : Queue A
  empty = record { items = []; refused = 0 }
