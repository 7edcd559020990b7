-- ===== src/Store/Bounds.antt =====
-- The sizes of the rings of viewer/src/state/telemetry_store.cpp, and the samples shown as latest.
use skygraph.Prelude.{
  ℕ, zero, suc, ◌-◌, ◌≤◌, ◌≡◌, refl, sym, ap, ◌∙◌, String, Option, none, some, List, [], ◌∷◌, ◌++◌,
  if-all, length, length-append, drop, arith, Option-cases, inl, inr,
}
use skygraph.Store.{
  frame_ring, breakdown_ring, low_rate_ring, event_log_cap, EventEntry, StutterEntry,
  TelemetryStore,
}
use skygraph.Store.Json.{Json, string_of}
use skygraph.Store.Rings.{push_capped, push_capped_lem, length-push_capped}
use skygraph.Store.Decode.{Arg, position_of}
use skygraph.Store.Ingest.{
  Kind, untyped, hello, heartbeat, frame, cpu_breakdown, memory, pressure, state, papyrus_snapshot,
  papyrus_top, plugins, stutter, event, streaming, ack, unknown, kind_of, Outcome, done, threw,
  ingest_frame, ingest_breakdown, ingest_memory, ingest_pressure, ingest_state, ingest_top,
  ingest_plugins, ingest_ack, route, ingest,
}

abbrev pub last {ℓ} : {A : Type ℓ} → List A → Option A
last [] = none
last (x ∷ []) = some x
last (x ∷ (y ∷ xs)) = last (y ∷ xs)

module _ {A : Type 0} where
  last-snoc : (xs : List A) (v : A) → last (xs ++ v ∷ []) ≡ some v
  last-snoc [] v = refl
  last-snoc (x ∷ []) v = refl
  last-snoc (x ∷ (y ∷ xs)) v = last-snoc (y ∷ xs) v

  last-drop : (n : ℕ) (xs : List A) (v : A) → n ≤ length xs → last (drop n (xs ++ v ∷ [])) ≡ some v
  last-drop zero xs v h = last-snoc xs v
  last-drop (suc n) [] v h = elim h [ ]
  last-drop (suc n) (x ∷ xs) v h = last-drop n xs v (omega (arith, h))

  -- A pushed sample is the last one of a ring that holds any.
  last-push_capped :
      (q : List A) (v : A) (size : ℕ) → 1 ≤ size → last (push_capped q v size) ≡ some v
  last-push_capped q v size h =
      ap last (push_capped_lem q v size)
      ∙ last-drop (length (q ++ v ∷ []) - size) q v (omega (arith, length-append q (v ∷ [])))

  pushed :
      (q : List A) (v : A) (size : ℕ)
      → 1 ≤ size
      → (length (push_capped q v size) ≤ size) × (some v ≡ last (push_capped q v size))
  pushed q v size h = (length-push_capped q v size, sym (last-push_capped q v size h))

module _ {J F D : Type 0} where
  abbrev pub Ok : TelemetryStore J F D → Type 0
  Ok s =
      ((length s.frames ≤ frame_ring) × (s.last_frame ≡ last s.frames))
      × ((length s.breakdowns ≤ breakdown_ring) × (s.last_breakdown ≡ last s.breakdowns))
      × ((length s.memories ≤ low_rate_ring) × (s.last_memory ≡ last s.memories))
      × ((length s.pressures ≤ low_rate_ring) × (s.last_pressure ≡ last s.pressures))
      × (length s.events ≤ event_log_cap)
      × (length s.stutters ≤ low_rate_ring)

  abbrev pub After {ℓ} : (TelemetryStore J F D → Type ℓ) → Outcome (TelemetryStore J F D) → Type ℓ
  After P (done s) = P s
  After P (threw s) = P s

  module _ (json : Json J F D) (format : String → List (Arg F) → String) where
    frame-Ok : (s : TelemetryStore J F D) (r : J) → Ok s → Ok (ingest_frame json format s r)
    unfolding ingest_frame
    frame-Ok s r (f, b, m, p, es, ss) =
        (pushed s.frames _ frame_ring (omega arith), b, m, p, es, ss)

    breakdown-Ok : (s : TelemetryStore J F D) (r : J) → Ok s → Ok (ingest_breakdown json format s r)
    unfolding ingest_breakdown
    breakdown-Ok s r (f, b, m, p, es, ss) =
        (f, pushed s.breakdowns _ breakdown_ring (omega arith), m, p, es, ss)

    memory-Ok : (s : TelemetryStore J F D) (r : J) → Ok s → Ok (ingest_memory json format s r)
    unfolding ingest_memory
    memory-Ok s r (f, b, m, p, es, ss) =
        (f, b, pushed s.memories _ low_rate_ring (omega arith), p, es, ss)

    pressure-Ok : (s : TelemetryStore J F D) (r : J) → Ok s → Ok (ingest_pressure json format s r)
    unfolding ingest_pressure
    pressure-Ok s r (f, b, m, p, es, ss) =
        (f, b, m, pushed s.pressures _ low_rate_ring (omega arith), es, ss)

    state-Ok : (s : TelemetryStore J F D) (r : J) → Ok s → After Ok (ingest_state json format s r)
    unfolding ingest_state
    state-Ok s r h = elim (Option-cases (position_of json format r)) [
      | inl e ↦ rw (e, After) h
      | inr (p, e) ↦ rw (e, After) h
    ]

    top-Ok : (s : TelemetryStore J F D) (r : J) → Ok s → Ok (ingest_top json format s r)
    unfolding ingest_top
    top-Ok s r h = elim (Option-cases (json.find r "scripts")) [
      | inl e ↦ rw e h
      | inr (v, e) ↦ elim (Option-cases (json.elements v)) [
        | inl f ↦ rw (e, f) h
        | inr (js, f) ↦ rw (e, f) h
      ]
    ]

    ack-Ok :
        (s : TelemetryStore J F D) (r : J) (now : ℕ) → Ok s → Ok (ingest_ack json format s r now)
    unfolding ingest_ack
    ack-Ok s r now h = if-all Ok _ _ _ (if-all Ok _ _ _ h h) h

    stutter-Ok :
        (s : TelemetryStore J F D) (e : StutterEntry J F D)
        → Ok s
        → Ok (record s { stutters = push_capped s.stutters e low_rate_ring })
    stutter-Ok s e (f, b, m, p, es, ss) =
        (f, b, m, p, es, length-push_capped s.stutters e low_rate_ring)

    event-Ok :
        (s : TelemetryStore J F D) (e : EventEntry J D)
        → Ok s
        → Ok (record s { events = push_capped s.events e event_log_cap })
    event-Ok s e (f, b, m, p, es, ss) =
        (f, b, m, p, length-push_capped s.events e event_log_cap, ss)

    plugins-Ok : (s : TelemetryStore J F D) (r : J) → Ok s → Ok (ingest_plugins json format s r)
    unfolding ingest_plugins
    plugins-Ok s r h = h

    route-Ok :
        (s : TelemetryStore J F D) (r : J) (now : ℕ) (type : String) (k : Kind)
        → Ok s
        → After Ok (route json format s r now type k)
    unfolding route
    route-Ok s r now type untyped h = h
    route-Ok s r now type hello h = h
    route-Ok s r now type heartbeat h = h
    route-Ok s r now type frame h = frame-Ok s r h
    route-Ok s r now type cpu_breakdown h = breakdown-Ok s r h
    route-Ok s r now type memory h = memory-Ok s r h
    route-Ok s r now type pressure h = pressure-Ok s r h
    route-Ok s r now type state h = state-Ok s r h
    route-Ok s r now type papyrus_snapshot h = h
    route-Ok s r now type papyrus_top h = top-Ok s r h
    route-Ok s r now type plugins h = plugins-Ok s r h
    route-Ok s r now type stutter h = stutter-Ok s _ h
    route-Ok s r now type event h = event-Ok s _ h
    route-Ok s r now type streaming h = h
    route-Ok s r now type ack h = ack-Ok s r now h
    route-Ok s r now type unknown h = h

    -- Whatever record arrives, also one that makes `Ingest` throw: no ring holds more than its size,
    -- and the latest frame, breakdown, memory and pressure are the newest entries of their rings.
    pub ingest-Ok :
        (s : TelemetryStore J F D) (r : J) (now : ℕ) → Ok s → After Ok (ingest json format s r now)
    unfolding ingest
    ingest-Ok s r now h =
        route-Ok _ r now (string_of json r "type") (kind_of (string_of json r "type")) h
