-- ===== src/Ring/Threads/Race.antt =====
-- Two producers on one ring (plugin/src/transport/ring_buffer.h), as when the frame hook and a
-- sampler thread submit at once.
use skygraph.Prelude.{
  ℕ, ◌+◌, ◌%◌, ◌^◌, ◌<◌, ◌≡◌, refl, sym, ap, ◌∙◌, subst, length-set, List, [], ◌∷◌, ◌++◌, arith,
  false, length, set, lt→ltb, leb,
}
use skygraph.Ring.{Ring, sub_size, add_size}
use skygraph.Ring.State.{Represents, Represents-push, waiting, head_slot}
use skygraph.Ring.Contents.{Holds-set}
use skygraph.Ring.Threads.{Turn, starts, pushes, schedule, at_rest}

-- Both load `_head` and `_tail`, both write the slot, both store `_head`.
abbrev pub both_at_once : {A : Type 0} → A → A → List (Turn A)
both_at_once x y =
    starts 0 x ∷ starts 1 y ∷ pushes 0 ∷ pushes 1 ∷ pushes 0 ∷ pushes 1 ∷ pushes 0 ∷ pushes 1 ∷ []

module _ {A : Type 0} {r : Ring A} {k c : ℕ} {xs : List A} (rep : Represents r k c xs) where
  after_race : A → A → Ring A
  after_race x y = record r {
    slots = set (set r.slots ((c + length xs) % 2 ^ k) x) ((c + length xs) % 2 ^ k) y;
    head = add_size r.head 1;
  }

  schedule-both :
      (moved : A → A) (x y : A)
      → length xs < 2 ^ k
      → let s = schedule moved (at_rest r) (both_at_once x y) in
        (s.ring ≡ after_race x y) × (s.accepted ≡ x ∷ y ∷ [])
  unfolding schedule after_race
  schedule-both moved x y lt =
      let free : leb r.capacity (sub_size r.head r.tail) ≡ false =
        ground (arith, waiting rep, rep.power) in
      rw (free, free, head_slot rep) (refl, refl)

  Represents-after : (x y : A) → length xs < 2 ^ k → Represents (after_race x y) k c (xs ++ y ∷ [])
  unfolding after_race
  Represents-after x y lt = Represents-push overwritten y (lt→ltb _ _ lt)
    where
      overwritten : Represents (record r { slots = set r.slots ((c + length xs) % 2 ^ k) x }) k c xs
      overwritten = record {
        power = rep.power;
        small = rep.small;
        masked = rep.masked;
        room = length-set r.slots _ x ∙ rep.room;
        tail_at = rep.tail_at;
        head_at = rep.head_at;
        fits = rep.fits;
        holds =
            Holds-set r.slots (2 ^ k) c (c + length xs) xs x (omega arith) (omega arith) rep.holds;
      }

-- On any ring with room, two producers that push at the same time can both be told that their
-- record was accepted, while the ring holds only the second one: the first record is lost, and the
-- drop counter stays as it was.
pub two_producers_lose :
    {A : Type 0} (moved : A → A) (r : Ring A) (k c : ℕ) (xs : List A) (x y : A)
    → Represents r k c xs
    → length xs < r.capacity
    → let s = schedule moved (at_rest r) (both_at_once x y) in
      (s.accepted ≡ x ∷ y ∷ [])
      × Represents s.ring k c (xs ++ y ∷ [])
      × (s.ring.dropped ≡ r.dropped)
unfolding after_race
two_producers_lose moved r k c xs x y rep lt =
    let room : length xs < 2 ^ k = omega (arith, rep.power) in
    let (e, accepted) = schedule-both rep moved x y room in
    (
      accepted,
      subst (λ q. Represents q k c (xs ++ y ∷ [])) (sym e) (Represents-after rep x y room),
      ap (λ (q : Ring _). q.dropped) e,
    )
