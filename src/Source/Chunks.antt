-- ===== src/Source/Chunks.antt =====
-- `Feed` of viewer/src/transport/ndjson_source.cpp in terms of lines, and two reads in a row.
use mathlib.Core.List.{foldl}
use skygraph.Prelude.{
  subst, ℕ, ◌+◌, ◌^◌, ◌≤◌, ◌<◌, ◌≡◌, refl, sym, ap, ◌∙◌, Option, none, some, List, [], ◌∷◌, ◌++◌,
  append-nil, append_assoc, length, length-append, arith, Option-cases, inl, inr,
}
use skygraph.Framing.{Text}
use skygraph.Framing.Lines.{lines_of, partial_of, split-append, split_lines_lem}
use skygraph.Source.{Source, u64, scratch_cap, take_line, cap_scratch, feed}

module _ {J : Type 0} (parse : Text → Option J) where
  -- The records of some lines.
  abbrev pub parsed : List Text → List J
  parsed [] = []
  parsed ([] ∷ ls) = parsed ls
  parsed ((b ∷ l) ∷ ls) = elim (parse (b ∷ l)) [ none ↦ parsed ls | some j ↦ j ∷ parsed ls ]

  pub parsed-none :
      (b : ℕ) (l : Text) (ls : List Text) → parse (b ∷ l) ≡ none → parsed ((b ∷ l) ∷ ls) ≡ parsed ls
  parsed-none b l ls e = rw (e, parsed)

  pub parsed-some :
      (b : ℕ) (l : Text) (ls : List Text) (j : J)
      → parse (b ∷ l) ≡ some j
      → parsed ((b ∷ l) ∷ ls) ≡ j ∷ parsed ls
  parsed-some b l ls j e = rw (e, parsed)

  pub parsed-append : (ls ms : List Text) → parsed (ls ++ ms) ≡ parsed ls ++ parsed ms
  parsed-append [] ms = refl
  parsed-append ([] ∷ ls) ms = parsed-append ls ms
  parsed-append ((b ∷ l) ∷ ls) ms = elim (Option-cases (parse (b ∷ l))) [
    | inl e ↦
        parsed-none b l (ls ++ ms) e
        ∙ parsed-append ls ms
        ∙ ap (λ ps. ps ++ parsed ms) (sym (parsed-none b l ls e))
    | inr (j, e) ↦
        parsed-some b l (ls ++ ms) j e
        ∙ ap (◌∷◌ j) (parsed-append ls ms)
        ∙ ap (λ ps. ps ++ parsed ms) (sym (parsed-some b l ls j e))
  ]

  take_line-none :
      (s : Source J) (b : ℕ) (l : Text) → parse (b ∷ l) ≡ none → take_line parse s (b ∷ l) ≡ s
  unfolding take_line
  take_line-none s b l e = rw (e, take_line)

  take_line-some :
      (s : Source J) (b : ℕ) (l : Text) (j : J)
      → parse (b ∷ l) ≡ some j
      → take_line parse s (b ∷ l)
        ≡ record s { queue = s.queue ++ j ∷ []; records_in = u64 (s.records_in + 1) }
  unfolding take_line
  take_line-some s b l j e = rw (e, take_line)

  take_line-empty : (s : Source J) → take_line parse s [] ≡ s
  unfolding take_line
  take_line-empty s = refl

  -- The source after reading some lines.
  abbrev pub taking : Source J → List J → Source J
  taking s js = record s { queue = s.queue ++ js; records_in = u64 (s.records_in + length js) }

  taking-cons :
      (s : Source J) (j : J) (js : List J)
      → taking (record s { queue = s.queue ++ j ∷ []; records_in = u64 (s.records_in + 1) }) js
        ≡ taking s (j ∷ js)
  taking-cons s j js = ground (arith, append_assoc s.queue (j ∷ []) js)

  foldl-take_line :
      (ls : List Text) (s : Source J)
      → s.records_in < 2 ^ 64
      → foldl (take_line parse) s ls ≡ taking s (parsed ls)
  foldl-take_line [] s h = ground (arith, append-nil s.queue)
  foldl-take_line ([] ∷ ls) s h =
      ap (λ t. foldl (take_line parse) t ls) (take_line-empty s) ∙ foldl-take_line ls s h
  foldl-take_line ((b ∷ l) ∷ ls) s h = elim (Option-cases (parse (b ∷ l))) [
    | inl e ↦
        ap (λ t. foldl (take_line parse) t ls) (take_line-none s b l e)
        ∙ foldl-take_line ls s h
        ∙ ap (taking s) (sym (parsed-none b l ls e))
    | inr (j, e) ↦
        ap (λ t. foldl (take_line parse) t ls) (take_line-some s b l j e)
        ∙ foldl-take_line ls _ (omega arith)
        ∙ taking-cons s j (parsed ls)
        ∙ ap (taking s) (sym (parsed-some b l ls j e))
  ]

  -- What `Feed` does, in terms of the lines of the buffer.
  abbrev pub fed : Source J → Text → Source J
  fed s bytes = record (taking s (parsed (lines_of (s.scratch ++ bytes)))) {
    bytes_in = u64 (s.bytes_in + length bytes);
    scratch = partial_of (s.scratch ++ bytes);
  }

  pub feed_lem :
      (s : Source J) (b : ℕ) (bytes : Text)
      → s.records_in < 2 ^ 64
      → feed parse s (b ∷ bytes) ≡ cap_scratch parse (fed s (b ∷ bytes))
  unfolding feed
  feed_lem s b bytes h =
      ap (λ (p : Source J × Text). cap_scratch parse (record (p.0) { scratch = p.1 }))
        (split_lines_lem (take_line parse) _ (s.scratch ++ b ∷ bytes)
          ∙ ap (λ t. (t, partial_of (s.scratch ++ b ∷ bytes)))
              (foldl-take_line (lines_of (s.scratch ++ b ∷ bytes)) _ h))

  pub cap_scratch-small : (s : Source J) → length s.scratch ≤ scratch_cap → cap_scratch parse s ≡ s
  unfolding cap_scratch
  cap_scratch-small s h = ground arith

  fed-append : (s : Source J) (a b : Text) → fed (fed s a) b ≡ fed s (a ++ b)
  fed-append s a b = ground (
    arith,
    append_assoc s.scratch a b,
    ap (λ (p : List Text × Text). p.0) (split-append (s.scratch ++ a) b),
    ap (λ (p : List Text × Text). p.1) (split-append (s.scratch ++ a) b),
    parsed-append (lines_of (s.scratch ++ a)) (lines_of (partial_of (s.scratch ++ a) ++ b)),
    append_assoc s.queue (parsed (lines_of (s.scratch ++ a)))
        (parsed (lines_of (partial_of (s.scratch ++ a) ++ b))),
    length-append (parsed (lines_of (s.scratch ++ a)))
        (parsed (lines_of (partial_of (s.scratch ++ a) ++ b))),
    length-append a b,
  )

  pub feed_nil : (s : Source J) → feed parse s [] ≡ s
  unfolding feed
  feed_nil s = refl

  cap_scratch-records : (s : Source J) → (cap_scratch parse s).records_in ≡ s.records_in
  unfolding cap_scratch
  cap_scratch-records s = ground arith

  pub feed_bound :
      (s : Source J) (bytes : Text)
      → s.records_in < 2 ^ 64
      → (feed parse s bytes).records_in < 2 ^ 64
  feed_bound s [] h = subst (λ (r : Source J). r.records_in < 2 ^ 64) (sym (feed_nil s)) h
  feed_bound s (b ∷ bytes) h = omega (
    arith,
    ap (λ (r : Source J). r.records_in) (feed_lem s b bytes h)
        ∙ cap_scratch-records (fed s (b ∷ bytes)),
  )

  -- Two reads one after the other leave the source as one read of all the bytes does, if the
  -- incomplete line between them is not above the cap of 1 MiB (and the counters are in range).
  pub feed-append :
      (s : Source J) (a b : Text)
      → s.records_in < 2 ^ 64
      → s.bytes_in < 2 ^ 64
      → length (partial_of (s.scratch ++ a)) ≤ scratch_cap
      → feed parse (feed parse s a) b ≡ feed parse s (a ++ b)
  feed-append s [] b hr hb small = ap (λ t. feed parse t b) (feed_nil s)
  feed-append s (x ∷ a) [] hr hb small =
      feed_nil (feed parse s (x ∷ a)) ∙ ap (feed parse s) (sym (append-nil (x ∷ a)))
  feed-append s (x ∷ a) (y ∷ b) hr hb small =
      ap (λ t. feed parse t (y ∷ b)) (feed_lem s x a hr ∙ cap_scratch-small (fed s (x ∷ a)) small)
      ∙ feed_lem (fed s (x ∷ a)) y b (omega arith)
      ∙ ap (cap_scratch parse) (fed-append s (x ∷ a) (y ∷ b))
      ∙ sym (feed_lem s x (a ++ y ∷ b) hr)
