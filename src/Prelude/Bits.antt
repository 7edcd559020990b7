-- ===== src/Prelude/Bits.antt =====
-- `x & (2^k - 1)` is the remainder by `2^k`, at every width.
use Prim.Native.Nat.{
  ℕ, zero, suc, ◌+◌, ◌-◌, ◌*◌, ◌/◌, ◌%◌, ◌^◌, ◌≤◌, ◌<◌, min, bit_and, digits, bit_and-bitwise,
}
use mathlib.Core.Path.{◌≡◌, refl, ap}
use native.Mathlib.Nat.{pow-suc, one-le-pow}
use native.Mathlib.Omega.{arith}

-- The digit recursion that the native operation stands for, and that its fuel does not matter.
abbrev common : ℕ → ℕ → ℕ → ℕ
common fuel a b = digits (λ b. zero) min fuel a b

common_fuel : (n m a b : ℕ) → a ≤ n → a ≤ m → common n a b ≡ common m a b
common_fuel n m zero b p q = first n m
  where
    first : (n m : ℕ) → common n zero b ≡ common m zero b
    first zero zero = refl
    first zero (suc m) = refl
    first (suc n) zero = refl
    first (suc n) (suc m) = refl
common_fuel zero m (suc a) b p q = elim p [ ]
common_fuel (suc n) zero (suc a) b p q = elim q [ ]
common_fuel (suc n) (suc m) (suc a) b p q =
    omega (arith, common_fuel n m (suc a / 2) (b / 2) (omega arith) (omega arith))

pub bit_and-halves : (a b : ℕ) → bit_and a b ≡ 2 * bit_and (a / 2) (b / 2) + min (a % 2) (b % 2)
bit_and-halves zero b = omega (arith, bit_and-bitwise 0 b, bit_and-bitwise 0 (b / 2))
bit_and-halves (suc a) b = omega (
  arith,
  bit_and-bitwise (suc a) b,
  common_fuel (suc a / 2) a (suc a / 2) (b / 2) (omega arith) (omega arith),
  bit_and-bitwise (suc a / 2) (b / 2),
)

no_bits : (bound a : ℕ) → a ≤ bound → bit_and a 0 ≡ 0
no_bits bound zero h = refl
no_bits zero (suc a) h = elim h [ ]
no_bits (suc bound) (suc a) h =
    omega (arith, bit_and-halves (suc a) 0, no_bits bound (suc a / 2) (omega arith))

-- Stated for the quotient and the remainder, which the induction halves together.
low_bits : (k q r : ℕ) → r < 2 ^ k → bit_and (2 ^ k * q + r) (2 ^ k - 1) ≡ r
low_bits zero q r h = omega (arith, no_bits (2 ^ 0 * q + r) (2 ^ 0 * q + r) (omega arith))
low_bits (suc k) q r h = ground (
  arith,
  bit_and-halves (2 ^ suc k * q + r) (2 ^ suc k - 1),
  pow-suc 2 k,
  ap (λ (t : ℕ). t * q) (pow-suc 2 k),
  one-le-pow k 2,
  low_bits k q (r / 2) (omega (arith, pow-suc 2 k)),
)

pub bit_and-mask : (k a : ℕ) → bit_and a (2 ^ k - 1) ≡ a % 2 ^ k
bit_and-mask k a = ground (arith, one-le-pow k 2, low_bits k (a / 2 ^ k) (a % 2 ^ k))
