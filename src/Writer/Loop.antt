-- ===== src/Writer/Loop.antt =====
-- `WriterThread::Loop` of plugin/src/transport/writer_thread.cpp. `deliver` is what the broadcast and
-- the recorder do with a record; `moved` is what a string is left as when it is moved from.
use mathlib.Core.List.{foldl}
use skygraph.Prelude.{
  ℕ, zero, suc, ◌-◌, ◌*◌, ◌≤◌, ◌<◌, ◌≡◌, refl, sym, ap, ◌∙◌, subst, Bool, true, false, not, Option,
  none, some, List, [], ◌∷◌, ◌++◌, ltb, ◌==◌, if◌then◌else◌, length, arith, if-all,
}
use skygraph.Ring.{Ring, try_pop, dropped_count}
use skygraph.Ring.State.{Represents, try_pop-empty, try_pop-some, taken, Represents-taken}

abbrev pub ten_seconds : ℕ
ten_seconds = 10 * 1000000000

-- The variables of the loop, with the drops that were written to the log.
pub record Writer (A S : Type 0) : Type 0 where
  pub ring : Ring A
  pub sink : S
  pub last_reported_drops : ℕ
  pub last_report : ℕ
  pub warned : List ℕ

module _ {A S : Type 0} (moved : A → A) (deliver : S → A → S) where
  -- The branch on `TryPop`.
  unfoldable pub take_one : Writer A S → Writer A S
  unfolding try_pop
  take_one s =
      let (got, record_out, r) = try_pop moved s.ring in
      elim record_out [
        | none ↦ record s { ring = r }
        | some x ↦ record s { ring = r; sink = deliver s.sink x }
      ]

  -- The report of drops, at most once in ten seconds.
  unfoldable pub report_drops : Writer A S → ℕ → Writer A S
  unfolding dropped_count
  report_drops s now =
      let drops = dropped_count s.ring in
      if ltb ten_seconds (now - s.last_report)
      then (if not (drops == s.last_reported_drops)
          then record s {
            warned = s.warned ++ drops ∷ [];
            last_reported_drops = drops;
            last_report = now;
          }
          else record s { last_report = now })
      else s

  -- A turn of the loop at a time.
  unfoldable pub turn : Writer A S → ℕ → Writer A S
  unfolding take_one report_drops
  turn s now = report_drops (take_one s) now

  -- The drain on shutdown, as many rounds as the fuel.
  unfoldable pub drain : ℕ → Writer A S → Writer A S
  unfolding take_one
  drain zero s = s
  drain (suc fuel) s =
      let (got, record_out, r) = try_pop moved s.ring in
      let rest = drain fuel (take_one s) in if got then rest else s

  -- The records that wait, once delivered, make the sink `final`.
  abbrev Owes : Writer A S → S → ℕ → Type 0
  Owes s final n =
      (k : ℕ) × (c : ℕ) × (xs : List A) × Represents s.ring k c xs
      × (foldl deliver s.sink xs ≡ final)
      × (length xs ≤ n)

  take_one-empty : (s : Writer A S) → try_pop moved s.ring ≡ (false, none, s.ring) → take_one s ≡ s
  unfolding take_one
  take_one-empty s e =
      ap
        (λ (p : Bool × Option A × Ring A). elim p.1 [
          | none ↦ record s { ring = p.2 }
          | some x ↦ record s { ring = p.2; sink = deliver s.sink x }
        ])
        e

  take_one-some :
      (s : Writer A S) (x : A) (r : Ring A)
      → try_pop moved s.ring ≡ (true, some x, r)
      → take_one s ≡ record s { ring = r; sink = deliver s.sink x }
  unfolding take_one
  take_one-some s x r e =
      ap
        (λ (p : Bool × Option A × Ring A). elim p.1 [
          | none ↦ record s { ring = p.2 }
          | some x ↦ record s { ring = p.2; sink = deliver s.sink x }
        ])
        e

  take_one-Owes : (s : Writer A S) (final : S) (n : ℕ) → Owes s final n → Owes (take_one s) final n
  take_one-Owes s final n (k, c, [], rep, e, l) =
      subst (λ t. Owes t final n) (sym (take_one-empty s (try_pop-empty moved rep)))
        (k, c, [], rep, e, l)
  take_one-Owes s final n (k, c, x ∷ xs, rep, e, l) =
      subst (λ t. Owes t final n)
        (sym (take_one-some s x (taken moved rep) (try_pop-some moved rep)))
        (k, suc c, xs, Represents-taken moved rep, e, omega (arith, l))

  report-keeps :
      (s : Writer A S) (now : ℕ)
      → ((report_drops s now).ring ≡ s.ring) × ((report_drops s now).sink ≡ s.sink)
  unfolding report_drops
  report-keeps s now =
      if-all (λ (t : Writer A S). (t.ring ≡ s.ring) × (t.sink ≡ s.sink))
        (ltb ten_seconds (now - s.last_report)) _ s
        (if-all (λ (t : Writer A S). (t.ring ≡ s.ring) × (t.sink ≡ s.sink))
          (not (dropped_count s.ring == s.last_reported_drops))
          (record s {
            warned = s.warned ++ dropped_count s.ring ∷ [];
            last_reported_drops = dropped_count s.ring;
            last_report = now;
          })
          (record s { last_report = now }) (refl, refl) (refl, refl))
        (refl, refl)

  report-Owes :
      (s : Writer A S) (now : ℕ) (final : S) (n : ℕ)
      → Owes s final n
      → Owes (report_drops s now) final n
  report-Owes s now final n (k, c, xs, rep, e, l) =
      let (p, q) = report-keeps s now in
      (
        k,
        c,
        xs,
        subst (λ (r : Ring A). Represents r k c xs) (sym p) rep,
        ap (λ v. foldl deliver v xs) q ∙ e,
        l,
      )

  turns-Owes :
      (s : Writer A S) (times : List ℕ) (final : S) (n : ℕ)
      → Owes s final n
      → Owes (foldl turn s times) final n
  unfolding turn
  turns-Owes s [] final n h = h
  turns-Owes s (now ∷ times) final n h =
      turns-Owes (turn s now) times final n
        (report-Owes (take_one s) now final n (take_one-Owes s final n h))

  drain-empty :
      (fuel : ℕ) (s : Writer A S)
      → try_pop moved s.ring ≡ (false, none, s.ring)
      → drain (suc fuel) s ≡ s
  unfolding drain
  drain-empty fuel s e =
      ap (λ (p : Bool × Option A × Ring A). if p.0 then drain fuel (take_one s) else s) e

  drain-some :
      (fuel : ℕ) (s : Writer A S) (x : A) (r : Ring A)
      → try_pop moved s.ring ≡ (true, some x, r)
      → drain (suc fuel) s ≡ drain fuel (record s { ring = r; sink = deliver s.sink x })
  unfolding drain
  drain-some fuel s x r e =
      ap (λ (p : Bool × Option A × Ring A). if p.0 then drain fuel (take_one s) else s) e
      ∙ ap (drain fuel) (take_one-some s x r e)

  drain_all :
      (fuel : ℕ) (s : Writer A S) (final : S) (k c : ℕ) (xs : List A)
      → length xs < fuel
      → Represents s.ring k c xs
      → foldl deliver s.sink xs ≡ final
      → (drain fuel s).sink ≡ final
  drain_all zero s final k c xs h rep e = elim h [ ]
  drain_all (suc fuel) s final k c [] h rep e =
      ap (λ t. t.sink) (drain-empty fuel s (try_pop-empty moved rep)) ∙ e
  drain_all (suc fuel) s final k c (x ∷ xs) h rep e =
      ap (λ t. t.sink) (drain-some fuel s x (taken moved rep) (try_pop-some moved rep))
      ∙ drain_all fuel (record s { ring = taken moved rep; sink = deliver s.sink x }) final k
          (suc c) xs (omega (arith, h)) (Represents-taken moved rep) e

  -- However many turns the loop makes, at whatever times, before it is stopped: after the drain
  -- every record that waited in the ring has been delivered, once and in order, if no more are
  -- submitted meanwhile. As many rounds as records, and one, are enough for the drain.
  pub drain-turns :
      (s : Writer A S) (k c : ℕ) (xs : List A) (times : List ℕ) (fuel : ℕ)
      → Represents s.ring k c xs
      → length xs < fuel
      → (drain fuel (foldl turn s times)).sink ≡ foldl deliver s.sink xs
  drain-turns s k c xs times fuel rep h =
      let final = foldl deliver s.sink xs in
      let (k', c', ys, rep', e, l) =
        turns-Owes s times final (length xs) (k, c, xs, rep, refl, omega arith) in
      drain_all fuel (foldl turn s times) final k' c' ys (omega (arith, h, l)) rep' e
