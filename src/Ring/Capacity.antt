-- ===== src/Ring/Capacity.antt =====
-- `RoundUpPow2`: when it ends, and with what.
use native.Mathlib.Nat.{pow-suc}
use skygraph.Prelude.{
  ℕ, zero, suc, ◌+◌, ◌*◌, ◌%◌, ◌^◌, ◌≤◌, ◌<◌, ◌≡◌, refl, ◌⊎◌, inl, inr, none, some, arith, ltb,
  Bool-cases, dec_le,
}
use skygraph.Ring.{size_mod, round_up_from, round_up_pow2}

pub pow_le : (i n : ℕ) → i ≤ n → 2 ^ i ≤ 2 ^ n
pow_le i zero h = let e : i ≡ 0 = omega arith in ground (arith, e)
pow_le i (suc n) h = elim (dec_le i n) [
  | yes le ↦ omega (arith, pow_le i n le, pow-suc 2 n)
  | no gt ↦ let e : i ≡ suc n = omega arith in ground (arith, e)
]

below_top : (i v : ℕ) → v ≤ 2 ^ 63 → 2 ^ i < v → i < 63
below_top i v h below = elim (dec_le 63 i) [
  | yes big ↦ absurd (omega (arith, pow_le 63 i big))
  | no less ↦ omega arith
]

-- From `2 ^ i` the loop reaches the first power that is not below `v`, within the fuel.
loop :
    (fuel i v : ℕ)
    → v ≤ 2 ^ 63
    → i < 64
    → 64 ≤ fuel + i
    → (i ≡ 0) ⊎ (2 ^ i < 2 * v)
    → (k : ℕ) × (k < 64)
      × (round_up_from fuel (2 ^ i) v ≡ some (2 ^ k))
      × (v ≤ 2 ^ k)
      × ((k ≡ 0) ⊎ (2 ^ k < 2 * v))
unfolding round_up_from
loop zero i v h lt en low = absurd (omega arith)
loop (suc fuel) i v h lt en low = elim (Bool-cases (ltb (2 ^ i) v)) [
  | inl below ↦
      let top : i < 63 = below_top i v h (ground arith) in
      let double : 2 ^ i * 2 % size_mod ≡ 2 ^ suc i =
        omega (arith, pow-suc 2 i, pow_le i 62 (omega arith)) in
      rw (below, double)
        (loop fuel (suc i) v h (omega arith) (omega arith) (inr (ground (arith, pow-suc 2 i))))
  | inr over ↦ (i, lt, rw over, ground arith, low)
]

-- For a size of at most 2^63 the loop of `RoundUpPow2` ends within 65 rounds, with the least power
-- of two that is not below the size (1 for the size 0).
pub round_up_pow2_lem :
    (v : ℕ)
    → v ≤ 2 ^ 63
    → (k : ℕ) × (k < 64)
      × (round_up_pow2 65 v ≡ some (2 ^ k))
      × (v ≤ 2 ^ k)
      × ((k ≡ 0) ⊎ (2 ^ k < 2 * v))
unfolding round_up_pow2
round_up_pow2_lem v h = loop 65 0 v h (omega arith) (omega arith) (inl refl)

-- the values that the loop variable takes when the size is larger
Doubling : ℕ → Type 0
Doubling c = (c ≡ 0) ⊎ ((i : ℕ) × (i < 64) × (c ≡ 2 ^ i))

Doubling-next : (c : ℕ) → Doubling c → Doubling (c * 2 % size_mod)
unfolding Doubling
Doubling-next c (inl e) = inl (omega arith)
Doubling-next c (inr (i, lt, e)) = elim (dec_le 63 i) [
  | yes top ↦ let e' : i ≡ 63 = omega arith in inl (rw (e, e'))
  | no low ↦
      inr (suc i, omega arith, rw e (omega (arith, pow-suc 2 i, pow_le (suc i) 63 (omega arith))))
]

Doubling-lt : (c : ℕ) → Doubling c → c ≤ 2 ^ 63
unfolding Doubling
Doubling-lt c (inl e) = omega arith
Doubling-lt c (inr (i, lt, e)) = omega (arith, pow_le i 63 (omega arith))

spins : (fuel c v : ℕ) → 2 ^ 63 < v → Doubling c → round_up_from fuel c v ≡ none
unfolding round_up_from
spins zero c v h d = refl
spins (suc fuel) c v h d =
    ground (arith, Doubling-lt c d, spins fuel (c * 2 % size_mod) v h (Doubling-next c d))

-- For a size above 2^63 the loop of `RoundUpPow2` never ends: the doubled value wraps to 0 and
-- stays there, below the size.
pub round_up_pow2-diverges : (v : ℕ) → 2 ^ 63 < v → (fuel : ℕ) → round_up_pow2 fuel v ≡ none
unfolding round_up_pow2 Doubling
round_up_pow2-diverges v h fuel = spins fuel 1 v h (inr (0, omega arith, refl))
