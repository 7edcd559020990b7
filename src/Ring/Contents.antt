-- ===== src/Ring/Contents.antt =====
-- What the slots of the ring hold. `c` counts the records popped so far: an unbounded number, of
-- which the ring keeps the remainder by 2^64.
use native.Mathlib.Nat.{
  mod-add-mod, mod-eq_of_lt, mod-eq-sub-mod, mod-lt, mod-mod_of_dvd, pow-suc, dvd_refl, dvd_trans,
  dvd-mul_right,
}
use Prim.Native.Nat.{◌∣◌}
use skygraph.Prelude.{
  ℕ, zero, suc, ◌+◌, ◌-◌, ◌%◌, ◌^◌, ◌≤◌, ◌<◌, ◌≡◌, ◌≢◌, ◌∙◌, sym, subst, List, [], ◌∷◌, ◌++◌, some,
  arith, length, get_elem?, set, get_elem?-set_self, get_elem?-set_ne, bit_and, dec_lt,
}
use skygraph.Prelude.Bits.{bit_and-mask}
use skygraph.Ring.{size_mod}

-- Fewer than `size` places on, the slot is another one.
slot_ne : (size i d : ℕ) → 0 < d → d < size → (i + d) % size ≢ i % size
slot_ne size i d pos lt = elim (dec_lt (i % size + d) size) [
  | yes p ↦ omega (arith, mod-add-mod i size d, mod-eq_of_lt p)
  | no p ↦ omega (
    arith,
    mod-add-mod i size d,
    mod-lt i {m = size} (omega arith),
    mod-eq-sub-mod {n = i % size + d} {m = size} (omega arith),
    mod-eq_of_lt {n = i % size + d - size} {m = size}
        (omega (arith, mod-lt i {m = size} (omega arith))),
  )
]

dvd_pow : (k n : ℕ) → k ≤ n → 2 ^ k ∣ 2 ^ n
dvd_pow k zero h = let e : k ≡ 0 = omega arith in rw e (dvd_refl (2 ^ 0))
dvd_pow k (suc n) h = elim (dec_lt n k) [
  | yes top ↦ let e : k ≡ suc n = omega arith in rw e (dvd_refl (2 ^ suc n))
  | no low ↦
      dvd_trans (2 ^ k) (dvd_pow k n (omega arith)) (rw (pow-suc 2 n) (dvd-mul_right (2 ^ n) 2))
]

-- The slot of a position does not depend on whether the counter has wrapped.
pub slot_of_wrapped : (k i : ℕ) → k < 64 → bit_and (i % size_mod) (2 ^ k - 1) ≡ i % 2 ^ k
slot_of_wrapped k i h =
    bit_and-mask k (i % size_mod) ∙ mod-mod_of_dvd (2 ^ k) i (dvd_pow k 64 (omega arith))

pub slot_past : (size i j : ℕ) → i < j → j < i + size → j % size ≢ i % size
slot_past size i j lo hi =
    let e : i + (j - i) ≡ j = omega arith in
    subst (λ (k : ℕ). k % size ≢ i % size) e (slot_ne size i (j - i) (omega arith) (omega arith))

module _ {ℓ} {A : Type ℓ} where
  -- The records `xs` lie in the slots of positions `c`, `c + 1`, ….
  abbrev pub Holds : List A → ℕ → ℕ → List A → Type ℓ
  Holds slots size c [] = Unit
  Holds slots size c (x ∷ xs) = (get_elem? slots (c % size) ≡ some x) × Holds slots size (suc c) xs

  -- A write to another slot.
  pub Holds-set :
      (slots : List A) (size c j : ℕ) (xs : List A) (v : A)
      → c + length xs ≤ j
      → j < c + size
      → Holds slots size c xs
      → Holds (set slots (j % size) v) size c xs
  Holds-set slots size c j [] v lo hi h = h
  Holds-set slots size c j (x ∷ xs) v lo hi h = (
    get_elem?-set_ne slots (j % size) (c % size) v (slot_past size c j (omega arith) hi) ∙ h.0,
    Holds-set slots size (suc c) j xs v (omega arith) (omega arith) h.1,
  )

  -- One more record, in the slot that comes next.
  pub Holds-snoc :
      (slots : List A) (size c : ℕ) (xs : List A) (v : A)
      → Holds slots size c xs
      → get_elem? slots ((c + length xs) % size) ≡ some v
      → Holds slots size c (xs ++ v ∷ [])
  Holds-snoc slots size c [] v h e =
      let z : c + 0 ≡ c = omega arith in
      (subst (λ (i : ℕ). get_elem? slots (i % size) ≡ some v) z e, tt)
  Holds-snoc slots size c (x ∷ xs) v h e =
      let z : c + suc (length xs) ≡ suc c + length xs = omega arith in
      (
        h.0,
        Holds-snoc slots size (suc c) xs v h.1
            (subst (λ (i : ℕ). get_elem? slots (i % size) ≡ some v) z e),
      )

  -- A write to the slot that comes next.
  pub Holds-append :
      (slots : List A) (size c : ℕ) (xs : List A) (v : A)
      → size ≤ length slots
      → length xs < size
      → Holds slots size c xs
      → Holds (set slots ((c + length xs) % size) v) size c (xs ++ v ∷ [])
  Holds-append slots size c xs v room lt h =
      Holds-snoc _ size c xs v
        (Holds-set slots size c (c + length xs) xs v (omega arith) (omega arith) h)
        (get_elem?-set_self slots _ v
          (omega (arith, mod-lt (c + length xs) {m = size} (omega arith))))

  -- A write to the slot of a position that was popped, before the positions come round to it.
  pub Holds-release :
      (slots : List A) (size c j : ℕ) (xs : List A) (v : A)
      → j < c
      → c + length xs ≤ j + size
      → Holds slots size c xs
      → Holds (set slots (j % size) v) size c xs
  Holds-release slots size c j [] v lo hi h = h
  Holds-release slots size c j (x ∷ xs) v lo hi h = (
    get_elem?-set_ne slots (j % size) (c % size) v
          (λ e. slot_past size j c lo (omega arith) (sym e))
        ∙ h.0,
    Holds-release slots size (suc c) j xs v (omega arith) (omega arith) h.1,
  )
