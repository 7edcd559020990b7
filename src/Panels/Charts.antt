-- ===== src/Panels/Charts.antt =====
-- `ComputePacing` and the stack of viewer/src/panels/charts_panel.cpp, and the texts of
-- viewer/src/panels/status_bar.cpp. Floating point and `sort` are parameters; `scaled q n` is the
-- conversion of q * n to an index.
use skygraph.Prelude.{
  ℕ, ◌-◌, ◌/◌, ◌%◌, ◌<◌, ◌≡◌, refl, String, Bool, false, Option, none, some, List, [], ◌∷◌, ltb,
  if◌then◌else◌, length, get_elem?, get_elem?_lt, arith, if-cases,
}
use skygraph.Source.{State, connected, replaying, connecting, error, disconnected}
use skygraph.Store.{FrameSample, BreakdownSample}

pub record Reals (F D : Type 0) : Type 0 where
  pub positive : F → Bool
  pub widen : F → D
  pub zero : D
  pub add : D → D → D
  -- 1000.0 by the mean of a sum, and by a frame time
  pub mean_fps : D → ℕ → D
  pub fps : F → D
  pub scaled : D → ℕ → ℕ

pub record PacingStats (D : Type 0) : Type 0 where
  pub mean_fps : D
  pub p99_low_fps : D
  pub p999_low_fps : D

module _ {F D : Type 0} (re : Reals F D) where
  -- The frame times above zero, and their sum.
  unfoldable pub frame_times : D → List (FrameSample F D) → D × List F
  frame_times sum [] = (sum, [])
  frame_times sum (f ∷ fs) =
      let (all, more) = frame_times (re.add sum (re.widen (f.dt_ms))) fs in
      let rest = frame_times sum fs in if re.positive (f.dt_ms) then (all, f.dt_ms ∷ more) else rest

  -- `pIdx`, of `n` frame times.
  unfoldable pub p_idx : D → ℕ → ℕ
  p_idx q n = let i = re.scaled q (n - 1) in if ltb i n then i else n - 1

  -- `none` would be an access out of bounds.
  unfoldable pub low_fps : List F → D → Option D
  unfolding p_idx
  low_fps dt q = elim (get_elem? dt (p_idx q (length dt))) [
    | none ↦ none
    | some x ↦ some (re.fps x)
  ]

  abbrev pub no_pacing : PacingStats D
  no_pacing = record { mean_fps = re.zero; p99_low_fps = re.zero; p999_low_fps = re.zero }

  -- The two quantiles are 0.99 and 0.999.
  unfoldable pub pacing_of : (List F → List F) → D → D → D → List F → Option (PacingStats D)
  unfolding low_fps
  pacing_of sort q99 q999 sum [] = some no_pacing
  pacing_of sort q99 q999 sum (x ∷ dt) =
      let sorted = sort (x ∷ dt) in
      elim (low_fps sorted q99) [
        | none ↦ none
        | some p99 ↦ elim (low_fps sorted q999) [
          | none ↦ none
          | some p999 ↦ some (record {
            mean_fps = re.mean_fps sum (length (x ∷ dt));
            p99_low_fps = p99;
            p999_low_fps = p999;
          })
        ]
      ]

  unfoldable pub compute_pacing :
      (List F → List F) → D → D → List (FrameSample F D) → Option (PacingStats D)
  unfolding pacing_of frame_times
  compute_pacing sort q99 q999 fs =
      let (sum, dt) = frame_times (re.zero) fs in pacing_of sort q99 q999 sum dt

  -- The six lines of a breakdown, each on the one before.
  unfoldable pub stacked : BreakdownSample F D → List D
  stacked s =
      let papyrus = re.widen (s.papyrus_ms) in
      let havok = re.add papyrus (re.widen (s.havok_ms)) in
      let ai = re.add havok (re.widen (s.ai_ms)) in
      let render = re.add ai (re.widen (s.render_submit_ms)) in
      let streaming = re.add render (re.widen (s.streaming_ms)) in
      papyrus ∷ havok ∷ ai ∷ render ∷ streaming ∷ re.add streaming (re.widen (s.other_ms)) ∷ []

  p_idx-bound : (q : D) (n : ℕ) → 0 < n → p_idx q n < n
  unfolding p_idx
  p_idx-bound q n h =
      if-cases (λ i. i < n) (ltb (re.scaled q (n - 1)) n) (re.scaled q (n - 1)) (n - 1)
        (λ e. ground arith) (λ e. omega (arith, h))

  low_fps-some : (dt : List F) (q : D) → 0 < length dt → (d : D) × (low_fps dt q ≡ some d)
  unfolding low_fps
  low_fps-some dt q h =
      let (x, e) = get_elem?_lt dt (p_idx q (length dt)) (p_idx-bound q (length dt) h) in
      (re.fps x, rw (e, low_fps) refl)

  pacing_of-some :
      (sort : List F → List F) (q99 q999 sum : D) (dt : List F)
      → ((xs : List F) → length (sort xs) ≡ length xs)
      → (p : PacingStats D) × (pacing_of sort q99 q999 sum dt ≡ some p)
  unfolding pacing_of
  pacing_of-some sort q99 q999 sum [] keeps = (no_pacing, refl)
  pacing_of-some sort q99 q999 sum (x ∷ dt) keeps =
      let some_left : 0 < length (sort (x ∷ dt)) = omega (arith, keeps (x ∷ dt)) in
      let (a, e) = low_fps-some (sort (x ∷ dt)) q99 some_left in
      let (b, f) = low_fps-some (sort (x ∷ dt)) q999 some_left in
      (
        record { mean_fps = re.mean_fps sum (length (x ∷ dt)); p99_low_fps = a; p999_low_fps = b },
        rw (e, f, pacing_of) refl,
      )

  -- Whatever the frames are, and whatever index floating point makes of a quantile, no frame time is
  -- read out of bounds. Relied on: `sort` keeps the length.
  pub compute_pacing-some :
      (sort : List F → List F) (q99 q999 : D) (fs : List (FrameSample F D))
      → ((dt : List F) → length (sort dt) ≡ length dt)
      → (p : PacingStats D) × (compute_pacing sort q99 q999 fs ≡ some p)
  unfolding compute_pacing
  compute_pacing-some sort q99 q999 fs keeps =
      pacing_of-some sort q99 q999 ((frame_times (re.zero) fs).0) ((frame_times (re.zero) fs).1)
        keeps

unfoldable pub state_label : State → String
state_label connected = "Connected"
state_label replaying = "Replaying"
state_label connecting = "Connecting..."
state_label error = "Error"
state_label disconnected = "Disconnected"

-- Can the session be saved?
unfoldable pub can_save : Bool → State → Bool
can_save has_callback connected = has_callback
can_save has_callback disconnected = false
can_save has_callback connecting = false
can_save has_callback replaying = false
can_save has_callback error = false

-- The hours, minutes and seconds of a session.
unfoldable pub session_time : ℕ → ℕ × ℕ × ℕ
session_time seconds = (seconds / 3600, seconds / 60 % 60, seconds % 60)
