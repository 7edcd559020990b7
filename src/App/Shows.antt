-- ===== src/App/Shows.antt =====
-- Enough frames of viewer/src/app.cpp after the last read.
use mathlib.Core.List.{flatten}
use skygraph.Prelude.{
  ℕ, ◌*◌, ◌^◌, ◌<◌, ◌≤◌, ◌≡◌, ◌⊎◌, inl, inr, refl, sym, ap, ◌∙◌, subst, String, Option, List, [],
  ◌∷◌, ◌++◌, append-nil, length, take, drop, length-drop, length-append, All, arith,
}
use skygraph.Framing.{Text}
use skygraph.Source.{Source}
use skygraph.Source.Chunks.{parsed}
use skygraph.Source.Stream.{stream, Sendable}
use skygraph.Store.{TelemetryStore}
use skygraph.Store.Json.{Json}
use skygraph.Store.Decode.{Arg}
use skygraph.Store.Ingest.{Outcome, done, threw}
use skygraph.Store.Frames.{ingest_all}
use skygraph.App.{drain_max, stamp}
use skygraph.App.Session.{
  Step, reads, draws, chunks, records_of, session, step, frame_lem, session-ingests,
}

-- Only frames, with their clocks.
abbrev pub frames : List (ℕ → ℕ) → List Step
frames [] = []
frames (now ∷ nows) = draws now ∷ frames nows

abbrev pub Threw : {S : Type 0} → Outcome S → Type 0
Threw (done s) = ⊥
Threw (threw s) = Unit

chunks-frames :
    (steps : List Step) (nows : List (ℕ → ℕ)) → chunks (steps ++ frames nows) ≡ chunks steps
chunks-frames [] [] = refl
chunks-frames [] (now ∷ nows) = chunks-frames [] nows
chunks-frames (reads b ∷ steps) nows = ap (◌∷◌ b) (chunks-frames steps nows)
chunks-frames (draws now ∷ steps) nows = chunks-frames steps nows

length-nil : {A : Type 0} (xs : List A) → length xs ≤ 0 → xs ≡ []
length-nil [] h = refl
length-nil (x ∷ xs) h = absurd (omega arith)

module _ {J F D : Type 0} (json : Json J F D) (format : String → List (Arg F) → String)
    (parse : Text → Option J) where
  session-append :
      (p : Source J × Outcome (TelemetryStore J F D)) (a b : List Step)
      → session json format parse p (a ++ b)
        ≡ session json format parse (session json format parse p a) b
  unfolding session
  session-append p [] b = refl
  session-append p (x ∷ a) b = session-append (step json format parse p x) a b

  frames-Threw :
      (s : Source J) (store : TelemetryStore J F D) (nows : List (ℕ → ℕ))
      → Threw (session json format parse (s, threw store) (frames nows)).1
  unfolding session
  frames-Threw s store [] = tt
  frames-Threw s store (now ∷ nows) = frames-Threw s store nows

  -- Each frame takes 4096 records of the queue.
  frames-empty :
      (s : Source J) (o : Outcome (TelemetryStore J F D)) (nows : List (ℕ → ℕ))
      → length s.queue ≤ length nows * drain_max
      → Threw (session json format parse (s, o) (frames nows)).1
        ⊎ ((session json format parse (s, o) (frames nows)).0.queue ≡ [])
  unfolding session
  frames-empty s (threw store) nows h = inl (frames-Threw s store nows)
  frames-empty s (done store) [] h = inr (length-nil (s.queue) (omega (arith, h)))
  frames-empty s (done store) (now ∷ nows) h =
      let s' = record s { queue = drop drain_max (s.queue) } in
      let o' = ingest_all json format store (stamp now 0 (take drain_max (s.queue))) in
      subst
        (λ p.
          Threw (session json format parse p (frames nows)).1
          ⊎ ((session json format parse p (frames nows)).0.queue ≡ []))
        (sym (frame_lem json format parse s store now))
        (frames-empty s' o' nows (omega (arith, h, length-drop drain_max (s.queue))))

-- Records are sent and read as bytes cut anywhere, between frames, and then come frames enough to
-- take 4096 records each: unless ingesting a record throws, the store is then what ingesting all
-- that was queued before and all the records that parse makes of it, once each and in order.
pub session-shows :
    {J F D : Type 0} (json : Json J F D) (format : String → List (Arg F) → String)
    (parse : Text → Option J) (s : Source J) (store : TelemetryStore J F D) (steps : List Step)
    (rs : List Text) (nows : List (ℕ → ℕ))
    → s.records_in < 2 ^ 64
    → s.bytes_in < 2 ^ 64
    → s.scratch ≡ []
    → All Sendable rs
    → flatten (chunks steps) ≡ stream rs
    → length (s.queue ++ parsed parse rs) ≤ length nows * drain_max
    → let o = (session json format parse (s, done store) (steps ++ frames nows)).1 in
      Threw o
      ⊎ ((seen : List (J × ℕ)) × (o ≡ ingest_all json format store seen)
          × (records_of seen ≡ s.queue ++ parsed parse rs))
session-shows json format parse s store steps rs nows hr hb empty h e enough =
    let p = session json format parse (s, done store) steps in
    let (first, i, q) = session-ingests json format parse s store steps rs hr hb empty h e in
    let waiting : length p.0.queue ≤ length nows * drain_max =
      omega (arith, enough, ap length q, length-append (records_of first) (p.0.queue)) in
    let whole = session-append json format parse (s, done store) steps (frames nows) in
    elim (frames-empty json format parse (p.0) (p.1) nows waiting) [
      | inl t ↦ inl (subst (λ (r : Source _ × Outcome _). Threw r.1) (sym whole) t)
      | inr z ↦
          let (seen, j, k) =
            session-ingests json format parse s store (steps ++ frames nows) rs hr hb empty h
              (ap flatten (chunks-frames steps nows) ∙ e) in
          inr (
            seen,
            j,
            sym (append-nil (records_of seen))
                ∙ ap (◌++◌ (records_of seen))
                    (sym (ap (λ (r : Source _ × Outcome _). r.0.queue) whole ∙ z))
                ∙ k,
          )
    ]
