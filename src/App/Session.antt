-- ===== src/App/Session.antt =====
-- A whole session of the viewer: the reads of the source's thread and the frames of
-- viewer/src/app.cpp, in any order, from what WriterThread::Submit made of the records
-- (plugin/src/transport/writer_thread.cpp) to TelemetryStore::Ingest
-- (viewer/src/state/telemetry_store.cpp).
use mathlib.Core.List.{foldl, flatten}
use skygraph.Prelude.{
  ℕ, suc, ◌^◌, ◌<◌, ◌≡◌, refl, sym, ap, ◌∙◌, String, Option, List, [], ◌∷◌, ◌++◌, append_assoc,
  take, drop, take-append-drop, All, arith,
}
use skygraph.Framing.{Text}
use skygraph.Source.{Source, feed, cap_scratch}
use skygraph.Source.Chunks.{feed_bound, feed_lem, feed_nil, fed, parsed}
use skygraph.Source.Queue.{drain_lem}
use skygraph.Source.Stream.{stream, Sendable, submit-feed}
use skygraph.Store.{TelemetryStore}
use skygraph.Store.Json.{Json}
use skygraph.Store.Decode.{Arg}
use skygraph.Store.Ingest.{Outcome, done, threw, ingest}
use skygraph.Store.Frames.{ingest_all}
use skygraph.App.{frame, stamp, drain_max}

-- A read of the source's thread, or a frame with its clock.
pub data Step : Type 0 where
  reads : Text → Step
  draws : (ℕ → ℕ) → Step

abbrev pub chunks : List Step → List Text
chunks [] = []
chunks (reads bytes ∷ steps) = bytes ∷ chunks steps
chunks (draws now ∷ steps) = chunks steps

abbrev pub records_of : {J : Type 0} → List (J × ℕ) → List J
records_of [] = []
records_of ((j, now) ∷ rs) = j ∷ records_of rs

module _ {J : Type 0} (parse : Text → Option J) where
  -- A source with other records before those of its queue.
  abbrev behind : List J → Source J → Source J
  behind js s = record s { queue = js ++ s.queue }

  cap_scratch-behind :
      (js : List J) (s : Source J)
      → cap_scratch parse (behind js s) ≡ behind js (cap_scratch parse s)
  unfolding cap_scratch
  cap_scratch-behind js s = ground arith

  feed-behind :
      (js : List J) (s : Source J) (bytes : Text)
      → s.records_in < 2 ^ 64
      → feed parse (behind js s) bytes ≡ behind js (feed parse s bytes)
  feed-behind js s [] h = feed_nil parse (behind js s) ∙ ap (behind js) (sym (feed_nil parse s))
  feed-behind js s (b ∷ bytes) h =
      feed_lem parse (behind js s) b bytes h
      ∙ ap (λ q. cap_scratch parse (record (fed parse s (b ∷ bytes)) { queue = q }))
          (append_assoc js (s.queue) _)
      ∙ cap_scratch-behind js (fed parse s (b ∷ bytes))
      ∙ ap (behind js) (sym (feed_lem parse s b bytes h))

stamp-records : {J : Type 0} (now : ℕ → ℕ) (i : ℕ) (js : List J) → records_of (stamp now i js) ≡ js
unfolding stamp
stamp-records now i [] = refl
stamp-records now i (j ∷ js) = ap (◌∷◌ j) (stamp-records now (suc i) js)

records-append :
    {J : Type 0} (a b : List (J × ℕ)) → records_of (a ++ b) ≡ records_of a ++ records_of b
records-append [] b = refl
records-append ((j, now) ∷ a) b = ap (◌∷◌ j) (records-append a b)

module _ {J F D : Type 0} (json : Json J F D) (format : String → List (Arg F) → String) where
  -- What the records after some that were ingested do.
  abbrev and_then : Outcome (TelemetryStore J F D) → List (J × ℕ) → Outcome (TelemetryStore J F D)
  and_then (done s) rs = ingest_all json format s rs
  and_then (threw s) rs = threw s

  ingest_all-cons :
      (s : TelemetryStore J F D) (r : J) (now : ℕ) (rs : List (J × ℕ))
      → ingest_all json format s ((r, now) ∷ rs) ≡ and_then (ingest json format s r now) rs
  unfolding ingest_all
  ingest_all-cons s r now rs = split (ingest json format s r now) rs
    where
      split :
          (o : Outcome (TelemetryStore J F D)) (rs : List (J × ℕ))
          → elim o as (λ x. Outcome (TelemetryStore J F D)) [
            | done s' ↦ ingest_all json format s' rs
            | threw s' ↦ threw s'
          ]
            ≡ and_then o rs
      split (done s') rs = refl
      split (threw s') rs = refl

  and_then-append :
      (o : Outcome (TelemetryStore J F D)) (a b : List (J × ℕ))
      → ((s : TelemetryStore J F D)
          → ingest_all json format s (a ++ b) ≡ and_then (ingest_all json format s a) b)
      → and_then o (a ++ b) ≡ and_then (and_then o a) b
  and_then-append (done s) a b h = h s
  and_then-append (threw s) a b h = refl

  ingest_all-nil : (s : TelemetryStore J F D) → ingest_all json format s [] ≡ done s
  unfolding ingest_all
  ingest_all-nil s = refl

  ingest_all-append :
      (s : TelemetryStore J F D) (a b : List (J × ℕ))
      → ingest_all json format s (a ++ b) ≡ and_then (ingest_all json format s a) b
  ingest_all-append s [] b = ap (λ o. and_then o b) (sym (ingest_all-nil s))
  ingest_all-append s ((r, now) ∷ a) b =
      ingest_all-cons s r now (a ++ b)
      ∙ and_then-append (ingest json format s r now) a b (λ s'. ingest_all-append s' a b)
      ∙ ap (λ o. and_then o b) (sym (ingest_all-cons s r now a))

  module _ (parse : Text → Option J) where
    -- A step; no frame comes after an exception has left one.
    unfoldable pub step :
        Source J × Outcome (TelemetryStore J F D) → Step → Source J × Outcome (TelemetryStore J F D)
    unfolding feed frame
    step (s, o) (reads bytes) = (feed parse s bytes, o)
    step (s, done store) (draws now) = frame json format s store now
    step (s, threw store) (draws now) = (s, threw store)

    unfoldable pub session :
        Source J × Outcome (TelemetryStore J F D)
        → List Step
        → Source J × Outcome (TelemetryStore J F D)
    unfolding step
    session p [] = p
    session p (x ∷ steps) = session (step p x) steps

    -- The records that were ingested, of a session that began with a store.
    abbrev Ingested : TelemetryStore J F D → Outcome (TelemetryStore J F D) → List (J × ℕ) → Type 0
    Ingested store o rs = o ≡ ingest_all json format store rs

    pub frame_lem :
        (s : Source J) (store : TelemetryStore J F D) (now : ℕ → ℕ)
        → frame json format s store now ≡ (
          record s { queue = drop drain_max (s.queue) },
          ingest_all json format store (stamp now 0 (take drain_max (s.queue))),
        )
    unfolding frame
    frame_lem s store now =
        ap (λ (p : ℕ × List J × Source J). (p.2, ingest_all json format store (stamp now 0 (p.1))))
          (drain_lem s [] drain_max)

    session_lem :
        (store : TelemetryStore J F D) (rs : List (J × ℕ)) (s : Source J)
        (o : Outcome (TelemetryStore J F D)) (steps : List Step)
        → Ingested store o rs
        → s.records_in < 2 ^ 64
        → (rs' : List (J × ℕ)) × Ingested store (session (s, o) steps).1 rs'
          × (behind parse (records_of rs') (session (s, o) steps).0
              ≡ foldl (feed parse) (behind parse (records_of rs) s) (chunks steps))
    unfolding session step
    session_lem store rs s o [] h b = (rs, h, refl)
    session_lem store rs s o (reads bytes ∷ steps) h b =
        let (rs', h', e) =
          session_lem store rs (feed parse s bytes) o steps h (feed_bound parse s bytes b) in
        (
          rs',
          h',
          e
              ∙ ap (λ r. foldl (feed parse) r (chunks steps))
                  (sym (feed-behind parse (records_of rs) s bytes b)),
        )
    session_lem store rs s (threw st) (draws now ∷ steps) h b =
        session_lem store rs s (threw st) steps h b
    session_lem store rs s (done st) (draws now ∷ steps) h b =
        let more = stamp now 0 (take drain_max (s.queue)) in
        let s' = record s { queue = drop drain_max (s.queue) } in
        let o' = ingest_all json format st more in
        let h1 : Ingested store o' (rs ++ more) =
          ap (λ o. and_then o more) h ∙ sym (ingest_all-append store rs more) in
        let (rs', h', e) = session_lem store (rs ++ more) s' o' steps h1 b in
        let f = frame_lem s st now in
        let q : records_of (rs ++ more) ++ s'.queue ≡ records_of rs ++ s.queue =
          ap (λ l. l ++ s'.queue)
            (records-append rs more
              ∙ ap (◌++◌ (records_of rs)) (stamp-records now 0 (take drain_max (s.queue))))
          ∙ append_assoc (records_of rs) (take drain_max (s.queue)) (s'.queue)
          ∙ ap (◌++◌ (records_of rs)) (take-append-drop drain_max (s.queue)) in
        (
          rs',
          ap (λ p. (session p steps).1) f ∙ h',
          ap (λ p. behind parse (records_of rs') (session p steps).0) f
              ∙ e
              ∙ ap (λ l. foldl (feed parse) (record s { queue = l }) (chunks steps)) q,
        )

-- Records (no newline inside, none above 1 MiB) are sent, and the viewer, whose source holds nothing
-- incomplete, reads their bytes, cut anywhere, between frames: at any moment when all bytes are read,
-- the store is what ingesting some of the records that parse makes of it, the others wait in the
-- queue, and together they are all of them, once each and in order. If ingesting one throws, the
-- session is at that exception.
pub session-ingests :
    {J F D : Type 0} (json : Json J F D) (format : String → List (Arg F) → String)
    (parse : Text → Option J) (s : Source J) (store : TelemetryStore J F D) (steps : List Step)
    (rs : List Text)
    → s.records_in < 2 ^ 64
    → s.bytes_in < 2 ^ 64
    → s.scratch ≡ []
    → All Sendable rs
    → flatten (chunks steps) ≡ stream rs
    → let p = session json format parse (s, done store) steps in
      (seen : List (J × ℕ)) × (p.1 ≡ ingest_all json format store seen)
      × (records_of seen ++ p.0.queue ≡ s.queue ++ parsed parse rs)
session-ingests json format parse s store steps rs hr hb empty h e =
    let (seen, i, q) =
      session_lem json format parse store [] s (done store) steps
        (sym (ingest_all-nil json format store)) hr in
    (
      seen,
      i,
      ap (λ (r : Source _). r.queue) (q ∙ submit-feed parse s rs (chunks steps) hr hb empty h e),
    )
