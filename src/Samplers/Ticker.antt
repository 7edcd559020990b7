-- ===== src/Samplers/Ticker.antt =====
-- The pacing of `MemorySampler::Loop`, of the thread of `StateSampler::Start` and of
-- `PapyrusSampler::SnapshotLoop` (plugin/src/samplers). A time is a number of the steady clock's ticks.
use native.Mathlib.Nat.{suc-mul}
use skygraph.Prelude.{
  ℕ, suc, ◌+◌, ◌*◌, ◌≤◌, ◌<◌, ◌≡◌, ◌⊎◌, inl, inr, refl, sym, ap, ◌∙◌, Bool, true, false, List, [],
  ◌∷◌, leb, ltb, if◌then◌else◌, All, arith, Bool-cases, leb→le, le→leb, lt→not-leb, subst,
}

pub record Ticker : Type 0 where
  pub period : ℕ
  pub next : ℕ

-- A round of the loop at `now`: does it fire? The next time is a period later than the one that was
-- due, or than now if that has passed as well.
unfoldable pub tick : Ticker → ℕ → Bool × Ticker
tick t now =
    let next = t.next + t.period in
    if leb t.next now
    then (true, record t { next = if ltb next now then now + t.period else next })
    else (false, t)

-- How often it fires in rounds at some times.
unfoldable pub ticks : Ticker → List ℕ → ℕ × Ticker
unfolding tick
ticks t [] = (0, t)
ticks t (now ∷ nows) =
    let (fires, t') = tick t now in
    let (n, t'') = ticks t' nows in ((if fires then 1 else 0) + n, t'')

abbrev later : Ticker → ℕ → ℕ
later t now = if ltb (t.next + t.period) now then now + t.period else t.next + t.period

tick_fires :
    (t : Ticker) (now : ℕ) → t.next ≤ now → tick t now ≡ (true, record t { next = later t now })
unfolding tick
tick_fires t now h = rw (le→leb t.next now h, tick) refl

tick_waits : (t : Ticker) (now : ℕ) → now < t.next → tick t now ≡ (false, t)
unfolding tick
tick_waits t now h = rw (lt→not-leb now t.next h, tick) refl

later_lem :
    (t : Ticker) (now : ℕ)
    → t.next ≤ now
    → (t.next + t.period ≤ later t now) × (later t now ≤ now + t.period)
later_lem t now h = ground arith

ticks_fires :
    (t : Ticker) (now : ℕ) (nows : List ℕ)
    → t.next ≤ now
    → (ticks t (now ∷ nows)).0 ≡ suc (ticks (record t { next = later t now }) nows).0
unfolding ticks
ticks_fires t now nows h =
    ap (λ (p : Bool × Ticker). (if p.0 then 1 else 0) + (ticks p.1 nows).0) (tick_fires t now h)
    ∙ omega arith

ticks_waits :
    (t : Ticker) (now : ℕ) (nows : List ℕ) → now < t.next → ticks t (now ∷ nows) ≡ ticks t nows
unfolding ticks
ticks_waits t now nows h =
    ap (λ (p : Bool × Ticker). ((if p.0 then 1 else 0) + (ticks p.1 nows).0, (ticks p.1 nows).1))
      (tick_waits t now h)
    ∙ (let z : 0 + (ticks t nows).0 ≡ (ticks t nows).0 = omega arith in
        ap (λ n. (n, (ticks t nows).1)) z)

ticks_nil : (t : Ticker) → (ticks t []).0 ≡ 0
unfolding ticks
ticks_nil t = refl

-- Until a time `limit`, a ticker of a period fires no more often than once per period.
ticks_bound :
    (t : Ticker) (limit : ℕ) (nows : List ℕ)
    → All (λ now. now ≤ limit) nows
    → ((ticks t nows).0 ≡ 0) ⊎ (t.next + (ticks t nows).0 * t.period ≤ limit + t.period)
ticks_bound t limit [] h = inl (ticks_nil t)
ticks_bound t limit (now ∷ nows) h = elim (Bool-cases (leb t.next now)) [
  | inl e ↦
      let due = leb→le t.next now e in
      inr (elim (ticks_bound (record t { next = later t now }) limit nows h.1) [
        | inl z ↦ let n = ticks_fires t now nows due in rw (n ∙ ap suc z) (omega (arith, h.0))
        | inr b ↦
            let n = ticks_fires t now nows due in
            rw n (
              omega (
                arith,
                h.0,
                b,
                suc-mul (ticks (record t { next = later t now }) nows).0 t.period,
                later_lem t now due,
              ))
      ])
  | inr e ↦
      let w = ticks_waits t now nows (ground arith) in
      subst (λ (p : ℕ × Ticker). (p.0 ≡ 0) ⊎ (t.next + p.0 * t.period ≤ limit + t.period)) (sym w)
        (ticks_bound t limit nows h.1)
]

-- A round that fires leaves the next time at most a period away.
waits-quiet : (t : Ticker) (nows : List ℕ) → (ticks t nows).0 ≡ 0 → (ticks t nows).1 ≡ t
unfolding ticks
waits-quiet t [] h = refl
waits-quiet t (now ∷ nows) h = elim (Bool-cases (leb t.next now)) [
  | inl e ↦ absurd (omega (arith, ticks_fires t now nows (leb→le t.next now e), h))
  | inr e ↦
      let w = ticks_waits t now nows (ground arith) in
      ap (λ (p : ℕ × Ticker). p.1) w ∙ waits-quiet t nows (ap (λ (p : ℕ × Ticker). p.0) (sym w) ∙ h)
]

-- In rounds at any times up to `limit`, a ticker fires at most once per period, and once more, from
-- the time that was due; and after it fired at `now` and then was quiet for any rounds, it fires in
-- every round that comes a period after `now` or later.
pub ticks-rate :
    (t : Ticker) (limit : ℕ) (nows : List ℕ) (now : ℕ) (quiet : List ℕ) (after : ℕ)
    → All (λ n. n ≤ limit) nows
    → t.next ≤ now
    → (ticks (tick t now).1 quiet).0 ≡ 0
    → now + t.period ≤ after
    → (((ticks t nows).0 ≡ 0) ⊎ (t.next + (ticks t nows).0 * t.period ≤ limit + t.period))
      × ((tick (ticks (tick t now).1 quiet).1 after).0 ≡ true)
ticks-rate t limit nows now quiet after h due z late = (
  ticks_bound t limit nows h,
  let q : (ticks (tick t now).1 quiet).1 ≡ record t { next = later t now } =
        waits-quiet (tick t now).1 quiet z
        ∙ ap (λ (p : Bool × Ticker). p.1) (tick_fires t now due) in
      ap (λ u. (tick u after).0) q
      ∙ ap (λ (p : Bool × Ticker). p.0)
          (tick_fires (record t { next = later t now }) after
            (omega (arith, later_lem t now due, late))),
)
