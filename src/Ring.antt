-- ===== src/Ring.antt =====
-- plugin/src/transport/ring_buffer.h: the bounded ring of strings between the samplers and the
-- writer thread. `size_t` has 64 bits. A slot holds any type of record; `blank` is the default
-- string of a fresh slot and `moved` what a string is left as when it is moved from (valid, but
-- not specified).
pub mod Capacity
pub mod Contents
pub mod Queue
pub mod State
pub mod Refine
pub mod Threads
mod Tests
use skygraph.Prelude.{
  ℕ, zero, suc, ◌+◌, ◌-◌, ◌*◌, ◌%◌, ◌^◌, bit_and, Bool, true, false, Option, none, some, List, ltb,
  leb, ◌==◌, if◌then◌else◌, get_elem?, set, replicate,
}

-- `size_t` arithmetic
abbrev pub size_mod : ℕ
size_mod = 2 ^ 64

abbrev pub add_size : ℕ → ℕ → ℕ
add_size a b = (a + b) % size_mod

abbrev pub sub_size : ℕ → ℕ → ℕ
sub_size a b = (a + size_mod - b) % size_mod

-- The loop of `RoundUpPow2`, `c <<= 1` on `size_t`; `none` means that the fuel ran out.
pub round_up_from : ℕ → ℕ → ℕ → Option ℕ
round_up_from zero c v = none
round_up_from (suc fuel) c v =
    let rest = round_up_from fuel (c * 2 % size_mod) v in if ltb c v then rest else some c

unfoldable pub round_up_pow2 : ℕ → ℕ → Option ℕ
unfolding round_up_from
round_up_pow2 fuel v = round_up_from fuel 1 v

pub record Ring {ℓ} (A : Type ℓ) : Type ℓ where
  pub capacity : ℕ
  pub mask : ℕ
  pub slots : List A
  pub head : ℕ
  pub tail : ℕ
  pub dropped : ℕ

module _ {ℓ} {A : Type ℓ} where
  abbrev pub of_capacity : A → ℕ → Ring A
  of_capacity blank c = record {
    capacity = c;
    mask = c - 1;
    slots = replicate c blank;
    head = 0;
    tail = 0;
    dropped = 0;
  }

  -- The constructor; `none` when the loop of `RoundUpPow2` has not ended within the fuel.
  unfoldable pub init : A → ℕ → ℕ → Option (Ring A)
  init blank fuel hint = elim (round_up_pow2 fuel (if hint == 0 then 1 else hint)) [
    | none ↦ none
    | some c ↦ some (of_capacity blank c)
  ]

  -- the slot of a position
  abbrev pub slot : Ring A → ℕ → ℕ
  slot r i = bit_and i r.mask

  unfoldable pub try_push : Ring A → A → Bool × Ring A
  try_push r x =
      if leb r.capacity (sub_size r.head r.tail)
      then (false, record r { dropped = add_size r.dropped 1 })
      else (true, record r { slots = set r.slots (slot r r.head) x; head = add_size r.head 1 })

  -- The slot a record is moved out of; nothing changes out of range.
  abbrev pub leave : (A → A) → List A → ℕ → List A
  leave moved xs i = elim (get_elem? xs i) [ none ↦ xs | some a ↦ set xs i (moved a) ]

  -- The option is what goes through `a_out` (`none`: nothing was written there).
  unfoldable pub try_pop : (A → A) → Ring A → Bool × Option A × Ring A
  try_pop moved r = if r.tail == r.head then (false, none, r) else (
    true,
    get_elem? r.slots (slot r r.tail),
    record r { slots = leave moved r.slots (slot r r.tail); tail = add_size r.tail 1 },
  )

  unfoldable pub dropped_count : Ring A → ℕ
  dropped_count r = r.dropped
