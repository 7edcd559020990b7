-- ===== src/Source/Stream.antt =====
-- From `WriterThread::Submit` (plugin/src/transport/writer_thread.cpp) to the queue of the viewer
-- (viewer/src/transport/ndjson_source.cpp).
use mathlib.Core.List.{foldl, flatten}
use skygraph.Prelude.{
  ℕ, ◌+◌, ◌^◌, ◌≤◌, ◌<◌, ◌≡◌, refl, ◌⊎◌, inl, inr, sym, ap, ◌∙◌, subst, Option, none, some, List,
  [], ◌∷◌, ◌++◌, append-nil, append_assoc, length, arith, All,
}
use skygraph.Framing.{Text, newline}
use skygraph.Framing.Lines.{
  NoNewline, lines_of, partial_of, split, split-line, split-NoNewline, split_nil,
}
use skygraph.Source.{Source, u64, scratch_cap, cap_scratch, feed}
use skygraph.Source.Chunks.{
  parsed, taking, fed, parsed-append, feed_lem, feed_nil, feed-append, cap_scratch-small,
}
use skygraph.Writer.{terminate, terminate-NoNewline}

abbrev pub framed : Option Text → Text
framed none = []
framed (some t) = t

-- The bytes that the submitted records become.
abbrev pub stream : List Text → Text
stream [] = []
stream (r ∷ rs) = framed (terminate r) ++ stream rs

-- Records as `nlohmann::json::dump` makes them: no newline inside, and of bounded size.
abbrev pub Sendable : Text → Type 0
Sendable r = NoNewline r × (length r ≤ scratch_cap)

terminate_nil : terminate [] ≡ none
unfolding terminate
terminate_nil = refl

pub stream-cons :
    (b : ℕ) (r : Text) (rs : List Text)
    → NoNewline (b ∷ r)
    → stream ((b ∷ r) ∷ rs) ≡ (b ∷ r) ++ newline ∷ stream rs
stream-cons b r rs h =
    ap (λ o. framed o ++ stream rs) (terminate-NoNewline b r h)
    ∙ append_assoc (b ∷ r) (newline ∷ []) (stream rs)

-- A beginning of a stream ends inside its first line, or contains that line.
cut_line :
    (r a b rest : Text)
    → NoNewline r
    → a ++ b ≡ r ++ newline ∷ rest
    → (NoNewline a × (length a ≤ length r))
      ⊎ ((a' : Text) × (a ≡ r ++ newline ∷ a') × (a' ++ b ≡ rest))
cut_line r [] b rest h e = inl (tt, omega arith)
cut_line [] (x ∷ a) b rest h e = inr (a, cc, cc)
cut_line (c ∷ r) (x ∷ a) b rest h e =
    let same : x ≡ c = cc in
    elim (cut_line r a b rest h.1 (cc)) [
      | inl (n, le) ↦ inl ((rw same h.0, n), omega arith)
      | inr (a', p, q) ↦ inr (a', cc (same, p), q)
    ]

-- What is incomplete at any cut of the stream is no longer than a record.
partial-stream :
    (rs : List Text) (a b : Text)
    → All Sendable rs
    → a ++ b ≡ stream rs
    → length (partial_of a) ≤ scratch_cap
partial-stream [] [] b h e = omega (arith, ap (λ (p : List Text × Text). length p.1) split_nil)
partial-stream [] (x ∷ a) b h e = cc
partial-stream ([] ∷ rs) a b h e =
    partial-stream rs a b h.1 (e ∙ ap (λ o. framed o ++ stream rs) terminate_nil)
partial-stream ((c ∷ r) ∷ rs) a b h e =
    elim (cut_line (c ∷ r) a b (stream rs) h.0.0 (e ∙ stream-cons c r rs h.0.0)) [
      | inl (n, le) ↦
          subst (λ (p : List Text × Text). length p.1 ≤ scratch_cap) (sym (split-NoNewline a n))
            (omega (arith, h.0.1))
      | inr (a', p, q) ↦
          subst (λ (t : Text). length (partial_of t) ≤ scratch_cap) (sym p)
            (subst (λ (s : List Text × Text). length s.1 ≤ scratch_cap)
              (sym (split-line (c ∷ r) a' h.0.0)) (partial-stream rs a' b h.1 q))
    ]

module _ {J : Type 0} (parse : Text → Option J) where
  parsed-line :
      (c : ℕ) (r : Text) (ls : List Text)
      → parsed parse ((c ∷ r) ∷ ls) ≡ parsed parse ((c ∷ r) ∷ []) ++ parsed parse ls
  parsed-line c r ls = parsed-append parse ((c ∷ r) ∷ []) ls

  -- The lines of the stream parse to what the records parse to.
  parsed-stream :
      (rs : List Text)
      → All Sendable rs
      → (parsed parse (lines_of (stream rs)) ≡ parsed parse rs) × (partial_of (stream rs) ≡ [])
  parsed-stream [] h = (
    ap (λ (p : List Text × Text). parsed parse p.0) split_nil,
    ap (λ (p : List Text × Text). p.1) split_nil,
  )
  parsed-stream ([] ∷ rs) h =
      let e = ap (λ o. framed o ++ stream rs) terminate_nil in
      let (p, q) = parsed-stream rs h.1 in
      (ap (λ t. parsed parse (lines_of t)) e ∙ p, ap partial_of e ∙ q)
  parsed-stream ((c ∷ r) ∷ rs) h =
      let e = ap split (stream-cons c r rs h.0.0) ∙ split-line (c ∷ r) (stream rs) h.0.0 in
      let (p, q) = parsed-stream rs h.1 in
      (
        ap (λ (t : List Text × Text). parsed parse t.0) e
            ∙ parsed-line c r (lines_of (stream rs))
            ∙ ap (◌++◌ (parsed parse ((c ∷ r) ∷ []))) p
            ∙ sym (parsed-line c r rs),
        ap (λ (t : List Text × Text). t.1) e ∙ q,
      )

  feed_chunks :
      (s : Source J) (rs : List Text) (a : Text) (chunks : List Text)
      → s.records_in < 2 ^ 64
      → s.bytes_in < 2 ^ 64
      → s.scratch ≡ []
      → All Sendable rs
      → a ++ flatten chunks ≡ stream rs
      → foldl (feed parse) (feed parse s a) chunks ≡ feed parse s (a ++ flatten chunks)
  unfolding flatten
  feed_chunks s rs a [] hr hb empty h e = ap (feed parse s) (sym (append-nil a))
  feed_chunks s rs a (c ∷ chunks) hr hb empty h e =
      ap (λ t. foldl (feed parse) t chunks) (feed-append parse s a c hr hb small)
      ∙ feed_chunks s rs (a ++ c) chunks hr hb empty h (append_assoc a c (flatten chunks) ∙ e)
      ∙ ap (feed parse s) (append_assoc a c (flatten chunks))
    where
      small : length (partial_of (s.scratch ++ a)) ≤ scratch_cap
      small =
          subst (λ (t : Text). length (partial_of (t ++ a)) ≤ scratch_cap) (sym empty)
            (partial-stream rs a (c ++ flatten chunks) h e)

  feed-stream :
      (s : Source J) (t : Text) (js : List J)
      → s.records_in < 2 ^ 64
      → s.bytes_in < 2 ^ 64
      → s.scratch ≡ []
      → parsed parse (lines_of t) ≡ js
      → partial_of t ≡ []
      → feed parse s t ≡ record (taking parse s js) { bytes_in = u64 (s.bytes_in + length t) }
  feed-stream s [] js hr hb empty p q =
      feed_nil parse s
      ∙ ground (arith, append-nil s.queue)
      ∙ ap (λ js. record (taking parse s js) { bytes_in = u64 (s.bytes_in + 0) })
          (sym (ap (λ (p : List Text × Text). parsed parse p.0) split_nil) ∙ p)
  feed-stream s (b ∷ t) js hr hb empty p q =
      feed_lem parse s b t hr
      ∙ ap (cap_scratch parse) whole
      ∙ cap_scratch-small parse _
          (subst (λ (r : Text). length r ≤ scratch_cap) (sym empty) (omega arith))
    where
      buffer : s.scratch ++ b ∷ t ≡ b ∷ t
      buffer = ap (λ r. r ++ b ∷ t) empty

      whole :
          fed parse s (b ∷ t)
          ≡ record (taking parse s js) { bytes_in = u64 (s.bytes_in + length (b ∷ t)) }
      whole =
          cc (ap (λ r. parsed parse (lines_of r)) buffer ∙ p, ap partial_of buffer ∙ q ∙ sym empty)

-- Records that are submitted one after the other (with no newline inside, and none above 1 MiB),
-- read by a source that holds no incomplete line, however their bytes are cut into reads: the
-- records that parse are queued, once each and in order, and nothing incomplete is left. The byte
-- and record counters go up by what arrived (modulo 2^64).
pub submit-feed :
    {J : Type 0} (parse : Text → Option J) (s : Source J) (rs : List Text) (chunks : List Text)
    → s.records_in < 2 ^ 64
    → s.bytes_in < 2 ^ 64
    → s.scratch ≡ []
    → All Sendable rs
    → flatten chunks ≡ stream rs
    → foldl (feed parse) s chunks ≡ record (taking parse s (parsed parse rs)) {
      bytes_in = u64 (s.bytes_in + length (stream rs));
    }
submit-feed parse s rs chunks hr hb empty h e =
    let (p, q) = parsed-stream parse rs h in
    ap (λ t. foldl (feed parse) t chunks) (sym (feed_nil parse s))
    ∙ feed_chunks parse s rs [] chunks hr hb empty h e
    ∙ ap (feed parse s) e
    ∙ feed-stream parse s (stream rs) (parsed parse rs) hr hb empty p q
