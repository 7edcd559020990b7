-- ===== src/Store/Frames.antt =====
-- The frame ring over a session, against the list of all the frames that were sent.
use text.Mathlib.Text.{◌==◌}
use skygraph.Prelude.{
  if◌then◌else◌, ℕ, ◌+◌, ◌-◌, ◌%◌, ◌^◌, ◌≤◌, ◌<◌, ◌≡◌, refl, sym, ap, ◌∙◌, subst, inl, inr, String,
  some, List, [], ◌∷◌, ◌++◌, append-nil, append_assoc, length, All, arith, Option-cases, drop,
  if-all,
}
use skygraph.Store.{TelemetryStore, FrameSample, frame_ring}
use skygraph.Store.Json.{Json, string_of}
use skygraph.Store.Rings.{push_capped_lem, newest, newest-append, length-newest}
use skygraph.Store.Errors.{kind, counted, Throws, ingest-Throws}
use skygraph.Store.Decode.{Arg, frame_of, position_of}
use skygraph.Store.Ingest.{
  Kind, untyped, hello, heartbeat, frame, cpu_breakdown, memory, pressure, state, papyrus_snapshot,
  papyrus_top, plugins, stutter, event, streaming, ack, unknown, Outcome, done, threw, ingest_frame,
  ingest_breakdown, ingest_memory, ingest_pressure, ingest_plugins, ingest_state, ingest_top,
  ingest_ack, route, ingest,
}

module _ {J F D : Type 0} (json : Json J F D) (format : String → List (Arg F) → String) where
  -- Some records, each with the time of its arrival, until one throws.
  unfoldable pub ingest_all : TelemetryStore J F D → List (J × ℕ) → Outcome (TelemetryStore J F D)
  unfolding ingest
  ingest_all s [] = done s
  ingest_all s ((r, now) ∷ rs) = elim (ingest json format s r now) [
    | done s' ↦ ingest_all s' rs
    | threw s' ↦ threw s'
  ]

  abbrev pub frame_if : Kind → J → List (FrameSample F D)
  frame_if frame r = frame_of json format r ∷ []
  frame_if untyped r = []
  frame_if hello r = []
  frame_if heartbeat r = []
  frame_if cpu_breakdown r = []
  frame_if memory r = []
  frame_if pressure r = []
  frame_if state r = []
  frame_if papyrus_snapshot r = []
  frame_if papyrus_top r = []
  frame_if plugins r = []
  frame_if stutter r = []
  frame_if event r = []
  frame_if streaming r = []
  frame_if ack r = []
  frame_if unknown r = []

  -- All the frames that some records carry.
  abbrev pub frames_of : List (J × ℕ) → List (FrameSample F D)
  frames_of [] = []
  frames_of ((r, now) ∷ rs) = frame_if (kind json format r) r ++ frames_of rs

  -- What a record does to the frames and to the count.
  abbrev Moved : TelemetryStore J F D → J → Kind → Outcome (TelemetryStore J F D) → Type 0
  Moved s r k (done s') =
      (s'.frames ≡ newest frame_ring (s.frames ++ frame_if k r))
      × (s'.total_records ≡ s.total_records)
  Moved s r k (threw s') = Unit

  short :
      (s : TelemetryStore J F D)
      → length s.frames ≤ frame_ring
      → s.frames ≡ newest frame_ring (s.frames ++ [])
  short s h =
      ap (λ n. drop n s.frames) {x = 0} {y = length s.frames - frame_ring} (omega (arith, h))
      ∙ ap (newest frame_ring) (sym (append-nil s.frames))

  state-Moved :
      (s : TelemetryStore J F D) (r : J)
      → length s.frames ≤ frame_ring
      → Moved s r state (ingest_state json format s r)
  unfolding ingest_state
  state-Moved s r h = elim (Option-cases (position_of json format r)) [
    | inl e ↦ rw (e, Moved) tt
    | inr (q, e) ↦ rw (e, Moved) (short s h, refl)
  ]

  top-Moved :
      (s : TelemetryStore J F D) (r : J)
      → length s.frames ≤ frame_ring
      → Moved s r papyrus_top (done (ingest_top json format s r))
  unfolding ingest_top
  top-Moved s r h = elim (Option-cases (json.find r "scripts")) [
    | inl e ↦ rw e (short s h, refl)
    | inr (v, e) ↦ elim (Option-cases (json.elements v)) [
      | inl f ↦ rw (e, f) (short s h, refl)
      | inr (js, f) ↦ rw (e, f) (short s h, refl)
    ]
  ]

  ack-Moved :
      (s : TelemetryStore J F D) (r : J) (now : ℕ)
      → length s.frames ≤ frame_ring
      → Moved s r ack (done (ingest_ack json format s r now))
  unfolding ingest_ack
  ack-Moved s r now h =
      let path = string_of json r "path" in
      let saved = record s { last_saved_path = some path; last_saved_at = now } in
      if-all (λ t. Moved s r ack (done t)) (string_of json r "for_cmd" == "save_session")
        (if path == "" then s else saved) s
        (if-all (λ t. Moved s r ack (done t)) (path == "") s saved (short s h, refl)
          (short s h, refl))
        (short s h, refl)

  route-Moved :
      (s : TelemetryStore J F D) (r : J) (now : ℕ) (type : String) (k : Kind)
      → length s.frames ≤ frame_ring
      → Moved s r k (route json format s r now type k)
  unfolding route ingest_frame ingest_breakdown ingest_memory ingest_pressure ingest_plugins
  route-Moved s r now type untyped h = (short s h, refl)
  route-Moved s r now type hello h = (short s h, refl)
  route-Moved s r now type heartbeat h = (short s h, refl)
  route-Moved s r now type frame h =
      (push_capped_lem s.frames (frame_of json format r) frame_ring, refl)
  route-Moved s r now type cpu_breakdown h = (short s h, refl)
  route-Moved s r now type memory h = (short s h, refl)
  route-Moved s r now type pressure h = (short s h, refl)
  route-Moved s r now type state h = state-Moved s r h
  route-Moved s r now type papyrus_snapshot h = (short s h, refl)
  route-Moved s r now type papyrus_top h = top-Moved s r h
  route-Moved s r now type plugins h = (short s h, refl)
  route-Moved s r now type stutter h = (short s h, refl)
  route-Moved s r now type event h = (short s h, refl)
  route-Moved s r now type streaming h = (short s h, refl)
  route-Moved s r now type ack h = ack-Moved s r now h
  route-Moved s r now type unknown h = (short s h, refl)

  ingest-frames :
      (s s' : TelemetryStore J F D) (r : J) (now : ℕ)
      → length s.frames ≤ frame_ring
      → ingest json format s r now ≡ done s'
      → (s'.frames ≡ newest frame_ring (s.frames ++ frame_if (kind json format r) r))
        × (s'.total_records ≡ (s.total_records + 1) % 2 ^ 64)
  unfolding ingest
  ingest-frames s s' r now h e =
      subst (Moved (counted json format s) r (kind json format r)) e
        (route-Moved (counted json format s) r now (string_of json r "type") (kind json format r) h)

  pub step-done :
      (s s' : TelemetryStore J F D) (r : J) (now : ℕ) (rs : List (J × ℕ))
      → ingest json format s r now ≡ done s'
      → ingest_all s ((r, now) ∷ rs) ≡ ingest_all s' rs
  unfolding ingest_all
  step-done s s' r now rs e = rw (e, ingest_all) refl

  pub ingest_all-nil : (s : TelemetryStore J F D) → ingest_all s [] ≡ done s
  unfolding ingest_all
  ingest_all-nil s = refl

  -- A session of records of which none makes `Ingest` throw is taken in to its end: the frame ring
  -- then holds the newest 3600 of all the frames that were sent, in order, and every record has been
  -- counted (modulo 2^64).
  pub ingest_all-frames :
      (s : TelemetryStore J F D) (rs : List (J × ℕ))
      → length s.frames ≤ frame_ring
      → s.total_records < 2 ^ 64
      → All (λ (p : J × ℕ). ¬ Throws json format p.0) rs
      → (s' : TelemetryStore J F D) × (ingest_all s rs ≡ done s')
        × (s'.frames ≡ newest frame_ring (s.frames ++ frames_of rs))
        × (s'.total_records ≡ (s.total_records + length rs) % 2 ^ 64)
  ingest_all-frames s [] h t ok = (s, ingest_all-nil s, short s h, omega arith)
  ingest_all-frames s ((r, now) ∷ rs) h t ok = elim (ingest-Throws json format s r now) [
    | inl (bad, e) ↦ absurd (ok.0 bad)
    | inr (good, (s1, e)) ↦
        let (p, q) = ingest-frames s s1 r now h e in
        let first = frame_if (kind json format r) r in
        let bound : length s1.frames ≤ frame_ring =
          subst (λ (l : List (FrameSample F D)). length l ≤ frame_ring) (sym p)
            (length-newest frame_ring (s.frames ++ first)) in
        let (s2, e2, f2, t2) = ingest_all-frames s1 rs bound (omega (arith, q)) ok.1 in
        (
          s2,
          step-done s s1 r now rs e ∙ e2,
          f2
              ∙ ap (λ l. newest frame_ring (l ++ frames_of rs)) p
              ∙ newest-append frame_ring (s.frames ++ first) (frames_of rs)
              ∙ ap (newest frame_ring) (append_assoc s.frames first (frames_of rs)),
          t2 ∙ omega (arith, q),
        )
  ]
