-- ===== src/Ring/Threads/Single.antt =====
-- One producer and one consumer on one ring, interleaved in any order.
use skygraph.Prelude.{
  ℕ, ◌^◌, ◌≤◌, ◌<◌, ◌≡◌, refl, sym, ap, ◌∙◌, subst, some, List, [], ◌∷◌, ◌++◌, append_assoc, length,
  All,
}
use skygraph.Ring.{Ring, of_capacity, init}
use skygraph.Ring.Refine.{init_lem, of_capacity-Represents}
use skygraph.Ring.Threads.{
  System, Turn, starts, pushes, pops, step, schedule, at_rest, from_option, push_step,
}
use skygraph.Ring.Threads.Invariant.{Shared, Kept, push_start-Kept, push_step-Kept}
use skygraph.Ring.Threads.Consumer.{pop_step-After}

-- The turn of the consumer or of producer 0.
abbrev pub BySingle : {A : Type 0} → Turn A → Type 0
BySingle (starts i x) = i ≡ 0
BySingle (pushes i) = i ≡ 0
BySingle pops = Unit

module _ {A : Type 0} (moved : A → A) (k : ℕ) where
  abbrev Inv : System A → Type 0
  Inv s =
      (c : ℕ) × (xs : List A) × (s.popped ++ xs ≡ s.accepted)
      × Kept s.ring (s.producers 0) s.consumer k c xs

  step-Inv : (t : Turn A) (s : System A) → BySingle t → Inv s → Inv (step moved s t)
  unfolding step
  step-Inv (starts i x) s one (c, xs, e, v) =
      rw one (c, xs, e, push_start-Kept x s.ring (s.producers 0) s.consumer k c xs v)
  step-Inv (pushes i) s one (c, xs, e, v) =
      let (xs', g, v') = push_step-Kept v.0 (s.producers 0) s.consumer v.1 v.2 in
      let out = from_option (push_step s.ring (s.producers 0)).2 in
      rw one (
        c,
        xs',
        ap (λ l. s.popped ++ l) g ∙ sym (append_assoc s.popped xs out) ∙ ap (λ l. l ++ out) e,
        v',
      )
  step-Inv pops s one (c, xs, e, v) =
      let (c', xs', g, v') = pop_step-After moved (s.producers 0) s.consumer s.ring k c xs v in
      (c', xs', append_assoc s.popped _ xs' ∙ ap (λ l. s.popped ++ l) (sym g) ∙ e, v')

  schedule-Inv :
      (ts : List (Turn A)) (s : System A) → All BySingle ts → Inv s → Inv (schedule moved s ts)
  unfolding schedule
  schedule-Inv [] s one v = v
  schedule-Inv (t ∷ ts) s one v = schedule-Inv ts (step moved s t) one.1 (step-Inv t s one.0 v)

of_capacity-Shared :
    {A : Type 0} (blank : A) (k : ℕ) → k < 64 → Shared (of_capacity blank (2 ^ k)) k 0 []
of_capacity-Shared blank k h =
    let rep = of_capacity-Represents blank k h in
    record {
      power = rep.power;
      small = rep.small;
      masked = rep.masked;
      room = rep.room;
      tail_at = rep.tail_at;
      head_at = rep.head_at;
      fits = rep.fits;
    }

from_of_capacity :
    {A : Type 0} (blank : A) (moved : A → A) (k : ℕ)
    → k < 64
    → (ts : List (Turn A)) → All BySingle ts
    → let s = schedule moved (at_rest (of_capacity blank (2 ^ k))) ts in
      (xs : List A) × (s.popped ++ xs ≡ s.accepted) × (length xs ≤ 2 ^ k)
from_of_capacity blank moved k lt ts one =
    let (c, xs, g, v) =
      schedule-Inv moved k ts (at_rest (of_capacity blank (2 ^ k))) one
        (0, [], refl, (of_capacity-Shared blank k lt, tt, tt)) in
    (xs, g, v.0.fits)

-- In every interleaving of one producer with the consumer, on a ring made for a capacity hint of
-- at most 2^63, the records popped so far are the first of the records accepted so far, in the same
-- order: none is lost, doubled or overtaken, and never more than the capacity are outstanding.
pub single_producer :
    {A : Type 0} (blank : A) (moved : A → A) (hint : ℕ) (r : Ring A)
    → hint ≤ 2 ^ 63
    → init blank 65 hint ≡ some r
    → (ts : List (Turn A)) → All BySingle ts
    → let s = schedule moved (at_rest r) ts in
      (xs : List A) × (s.popped ++ xs ≡ s.accepted) × (length xs ≤ r.capacity)
single_producer blank moved hint r h made ts one =
    let (k, lt, e, lo, hi) = init_lem blank hint h in
    let same : of_capacity blank (2 ^ k) ≡ r = cc (e, made) in
    subst
      (λ r.
        let s = schedule moved (at_rest r) ts in
        (xs : _) × (s.popped ++ xs ≡ s.accepted) × (length xs ≤ r.capacity))
      same (from_of_capacity blank moved k lt ts one)
