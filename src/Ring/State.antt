-- ===== src/Ring/State.antt =====
-- When a ring represents the records that wait in it, and that each call keeps it so.
use native.Mathlib.Nat.{one-le-pow}
use skygraph.Prelude.{
  ℕ, suc, ◌+◌, ◌-◌, ◌%◌, ◌^◌, ◌≤◌, ◌<◌, ◌≡◌, ◌≢◌, ◌∙◌, true, false, List, [], ◌∷◌, ◌++◌, none, some,
  arith, ltb, length, set, length-set, length-append,
}
use skygraph.Ring.{Ring, size_mod, add_size, sub_size, slot, try_push, try_pop}
use skygraph.Ring.Capacity.{pow_le}
use skygraph.Ring.Contents.{Holds, Holds-append, Holds-release, slot_of_wrapped}

-- `r` has `2 ^ k` slots, `c` records were popped so far and `xs` wait, oldest first.
pub record Represents {A : Type 0} (r : Ring A) (k c : ℕ) (xs : List A) : Type 0 where
  pub power : r.capacity ≡ 2 ^ k
  pub small : k < 64
  pub masked : r.mask ≡ 2 ^ k - 1
  pub room : length r.slots ≡ 2 ^ k
  pub tail_at : r.tail ≡ c % size_mod
  pub head_at : r.head ≡ (c + length xs) % size_mod
  pub fits : length xs ≤ 2 ^ k
  pub holds : Holds r.slots (2 ^ k) c xs

module _ {A : Type 0} {r : Ring A} {k c : ℕ} {xs : List A} (rep : Represents r k c xs) where
  open rep use {power, small, masked, room, tail_at, head_at, fits, holds}

  cap_bounds : (1 ≤ 2 ^ k) × (2 ^ k ≤ 2 ^ 63)
  cap_bounds = (one-le-pow k 2 (omega arith), pow_le k 63 (omega arith))

  -- `head - tail` on `size_t` is the number of records that wait.
  pub waiting : sub_size r.head r.tail ≡ length xs
  waiting = omega (arith, cap_bounds)

  pub head_slot : slot r r.head ≡ (c + length xs) % 2 ^ k
  head_slot = rw (masked, head_at) (slot_of_wrapped k (c + length xs) small)

  pub tail_slot : slot r r.tail ≡ c % 2 ^ k
  tail_slot = rw (masked, tail_at) (slot_of_wrapped k c small)

  pub try_push-full :
      (x : A)
      → ltb (length xs) (2 ^ k) ≡ false
      → try_push r x ≡ (false, record r { dropped = add_size r.dropped 1 })
  unfolding try_push
  try_push-full x full = ground (arith, waiting, power)

  pub try_push-room :
      (x : A)
      → ltb (length xs) (2 ^ k) ≡ true
      → try_push r x ≡ (
        true,
        record r { slots = set r.slots ((c + length xs) % 2 ^ k) x; head = add_size r.head 1 },
      )
  unfolding try_push
  try_push-room x free = ground (arith, waiting, power, head_slot)

  pub Represents-push :
      (x : A)
      → ltb (length xs) (2 ^ k) ≡ true
      → Represents
          (record r { slots = set r.slots ((c + length xs) % 2 ^ k) x; head = add_size r.head 1 })
          k
          c
          (xs ++ x ∷ [])
  Represents-push x free = record {
    power = power;
    small = small;
    masked = masked;
    room = length-set r.slots _ x ∙ room;
    tail_at = tail_at;
    head_at = omega (arith, length-append xs (x ∷ []));
    fits = ground (arith, length-append xs (x ∷ []));
    holds = Holds-append r.slots (2 ^ k) c xs x (omega arith) (ground arith) holds;
  }

  pub Represents-drop : (d : ℕ) → Represents (record r { dropped = d }) k c xs
  Represents-drop d = record {
    power = power;
    small = small;
    masked = masked;
    room = room;
    tail_at = tail_at;
    head_at = head_at;
    fits = fits;
    holds = holds;
  }

module _ {A : Type 0} (moved : A → A) {r : Ring A} {k c : ℕ} where
  pub try_pop-empty : Represents r k c [] → try_pop moved r ≡ (false, none, r)
  unfolding try_pop
  try_pop-empty rep =
      let e : r.tail ≡ r.head = omega (arith, rep.tail_at, rep.head_at) in ground arith

  module _ {x : A} {xs : List A} (rep : Represents r k c (x ∷ xs)) where
    abbrev pub taken : Ring A
    taken = record r { slots = set r.slots (c % 2 ^ k) (moved x); tail = add_size r.tail 1 }

    pub try_pop-some : try_pop moved r ≡ (true, some x, taken)
    unfolding try_pop
    try_pop-some =
        let ne : r.tail ≢ r.head =
          omega
            (arith, rep.tail_at, rep.head_at, rep.fits, pow_le k 63 (omega (arith, rep.small))) in
        ground (arith, tail_slot rep, rep.holds.0)

    pub Represents-taken : Represents taken k (suc c) xs
    Represents-taken = record {
      power = rep.power;
      small = rep.small;
      masked = rep.masked;
      room = length-set r.slots _ (moved x) ∙ rep.room;
      tail_at = omega (arith, rep.tail_at);
      head_at = omega (arith, rep.head_at);
      fits = omega (arith, rep.fits);
      holds =
          Holds-release r.slots (2 ^ k) (suc c) c xs (moved x) (omega arith)
            (omega (arith, rep.fits)) rep.holds.1;
    }
