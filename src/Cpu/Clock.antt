-- ===== src/Cpu/Clock.antt =====
-- The clock in microseconds, without and with the overflow of a product.
use native.Mathlib.Nat.{mul-add-div_right, div-add-mod, mod-lt}
use skygraph.Prelude.{
  ℕ, ◌+◌, ◌*◌, ◌/◌, ◌%◌, ◌^◌, ◌≤◌, ◌<◌, ◌≡◌, refl, sym, ap, ◌∙◌, none, some, ltb, arith, lt→not-leb,
  ltb→lt, Bool-cases, ◌==◌, false, ◌⊎◌, inl, inr,
}
use skygraph.Cpu.{qpc_now_us, event_qpc_now_us}

product_split :
    (freq ticks : ℕ) → ticks * 1000000 ≡ ticks / freq * 1000000 * freq + ticks % freq * 1000000
product_split freq ticks =
    let e : freq * (ticks / freq) + ticks % freq ≡ ticks = div-add-mod ticks freq in
    grind (arith, e)

-- For a frequency from 1 Hz to 10^12 Hz the clock is the exact quotient of the ticks by the
-- frequency, in microseconds, and the product that it takes of the remainder stays below 2^63.
pub qpc_now_us_lem :
    (freq ticks : ℕ)
    → 1 ≤ freq
    → freq ≤ 1000000000000
    → (qpc_now_us freq ticks ≡ ticks * 1000000 / freq) × (ticks % freq * 1000000 < 2 ^ 63)
unfolding qpc_now_us
qpc_now_us_lem freq ticks h small =
    let r : ticks % freq < freq = mod-lt ticks h in
    (
      rw (lt→not-leb 0 freq h) (
          sym (
            ap (λ n. n / freq) (product_split freq ticks)
            ∙ mul-add-div_right h (ticks / freq * 1000000) (ticks % freq * 1000000))),
      omega arith,
    )

-- The clock of the event sources shows the same time as the other one, until its product overflows:
-- from then on it has no defined value. (At 10 MHz that is after 2^63 / 10^13 seconds, less than
-- eleven days.)
pub event_qpc_now_us_lem :
    (freq ticks : ℕ)
    → 1 ≤ freq
    → freq ≤ 1000000000000
    → ((ticks * 1000000 < 2 ^ 63) × (event_qpc_now_us freq ticks ≡ some (qpc_now_us freq ticks)))
      ⊎ ((2 ^ 63 ≤ ticks * 1000000) × (event_qpc_now_us freq ticks ≡ none))
unfolding event_qpc_now_us
event_qpc_now_us_lem freq ticks h small =
    let q = (qpc_now_us_lem freq ticks h small).0 in
    elim (Bool-cases (ltb (ticks * 1000000) (2 ^ 63))) [
      | inl e ↦ inl (
        ltb→lt (ticks * 1000000) (2 ^ 63) e,
        let z : (freq == 0) ≡ false = ground arith in rw (e, z, event_qpc_now_us) (ap some (sym q)),
      )
      | inr e ↦ inr (ground arith, rw (e, event_qpc_now_us) refl)
    ]
