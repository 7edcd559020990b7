-- ===== src/Attribution/Decay.antt =====
-- The decay of plugin/src/samplers/papyrus_attribution.cpp over the entries of a table.
use skygraph.Prelude.{
  ℕ, ◌≤◌, ◌≡◌, refl, sym, ap, ◌∙◌, subst, Bool, true, false, ◌&&◌, List, [], ◌∷◌, map,
  if◌then◌else◌, All, arith, Bool-cases, inl, inr,
}
use skygraph.Attribution.{Entry, Table, is_zero, decayed, decay_all, snapshot_top_and_decay}

-- An entry with at least one call: what `Add` makes, until its counter wraps.
abbrev pub Used : Entry → Type 0
Used e = 1 ≤ e.calls_in_window

module _ {D : Type 0} (scaled : D → ℕ → ℕ) where
  decay_all-nil : (d : D) → decay_all scaled d [] ≡ []
  unfolding decay_all
  decay_all-nil d = refl

  decay_all-kept :
      (d : D) (e : Entry) (t : Table)
      → 1 ≤ scaled d e.calls_in_window
      → decay_all scaled d (e ∷ t) ≡ decayed scaled d e ∷ decay_all scaled d t
  unfolding decay_all
  decay_all-kept d e t h =
      ap (λ b. if b then decay_all scaled d t else decayed scaled d e ∷ decay_all scaled d t)
        (both (is_zero (scaled d e.total_us)) (is_zero (scaled d e.calls_in_window)) (ground arith))
    where
      both : (a b : Bool) → b ≡ false → (a && b) ≡ false
      both true b f = f
      both false b f = refl

  decay_all-Used :
      (d : D) (t : Table)
      → ((k : ℕ) → 1 ≤ k → 1 ≤ scaled d k)
      → All Used t
      → (map (λ e. e.name) (decay_all scaled d t) ≡ map (λ (e : Entry). e.name) t)
        × All Used (decay_all scaled d t)
  unfolding decayed
  decay_all-Used d [] k h =
      (ap (map (λ (e : Entry). e.name)) empty, subst (All Used) (sym empty) tt)
    where
      empty : decay_all scaled d [] ≡ []
      empty = decay_all-nil d
  decay_all-Used d (e ∷ t) k h =
      let kept = decay_all-kept d e t (k e.calls_in_window h.0) in
      let (p, q) = decay_all-Used d t k h.1 in
      (
        ap (map (λ (e : Entry). e.name)) kept ∙ ap (◌∷◌ e.name) p,
        subst (All Used) (sym kept) (k e.calls_in_window h.0, q),
      )

  -- When the rounded product of any number above zero is above zero (as it is for a factor of one
  -- half or more), and the factor is above zero: a table whose entries all have a call keeps every
  -- entry over a snapshot, and every entry keeps a call, so that no snapshot ever erases one.
  pub snapshot-Used :
      (at_most_zero below_one : D → Bool) (partial_sort : ℕ → List Entry → List Entry) (t : Table)
      (top : ℕ) (d : D)
      → at_most_zero d ≡ false
      → ((k : ℕ) → 1 ≤ k → 1 ≤ scaled d k)
      → All Used t
      → let t' = (snapshot_top_and_decay scaled at_most_zero below_one partial_sort t top d).1 in
        (map (λ (e : Entry). e.name) t' ≡ map (λ (e : Entry). e.name) t) × All Used t'
  unfolding snapshot_top_and_decay
  snapshot-Used at_most_zero below_one partial_sort t top d z k h =
      elim (Bool-cases (below_one d)) [
        | inl e ↦ rw (z, e) (decay_all-Used d t k h)
        | inr e ↦ rw (z, e) (refl, h)
      ]
