-- ===== src/Source/Queue.antt =====
-- What the UI thread takes from a source, and what a source holds on to.
use skygraph.Prelude.{
  ℕ, zero, suc, ◌+◌, ◌^◌, ◌≤◌, ◌<◌, ◌≡◌, sym, ap, ◌∙◌, subst, min, Option, List, [], ◌∷◌, ◌++◌,
  append-nil, append_assoc, take, drop, length, arith, ltb, Bool-cases, inl, inr,
}
use skygraph.Framing.{Text}
use skygraph.Framing.Lines.{NoNewline, partial_of-NoNewline}
use skygraph.Source.{Source, scratch_cap, drain_loop, drain, cap_scratch, feed}
use skygraph.Source.Chunks.{fed, feed_lem, feed_nil}

module _ {J : Type 0} where
  drain_loop_lem :
      (max : ℕ) (out queue : List J) (n : ℕ)
      → drain_loop max out queue n
        ≡ (n + min max (length queue), out ++ take max queue, drop max queue)
  unfolding drain_loop
  drain_loop_lem zero out queue n = ground (arith, append-nil out)
  drain_loop_lem (suc left) out [] n = ground (arith, append-nil out)
  drain_loop_lem (suc left) out (j ∷ queue) n =
      drain_loop_lem left (out ++ j ∷ []) queue (n + 1)
      ∙ ground (arith, append_assoc out (j ∷ []) (take left queue))

  -- A drain moves the oldest `max` records of the queue, in order, to the end of `out`, returns how
  -- many it moved (fewer than `max` only when the queue ran out), and leaves the rest of the queue
  -- and everything else of the source as it was.
  pub drain_lem :
      (s : Source J) (out : List J) (max : ℕ)
      → drain s out max
        ≡ (min max (length s.queue), out ++ take max s.queue, record s { queue = drop max s.queue })
  unfolding drain
  drain_lem s out max =
      ap (λ (p : ℕ × List J × List J). (p.0, p.1, record s { queue = p.2 }))
        (drain_loop_lem max out s.queue 0 ∙ ground arith)

  -- What waits for the rest of its line.
  abbrev pub Waits : Source J → Type 0
  Waits s = NoNewline s.scratch × (length s.scratch ≤ scratch_cap)

  module _ (parse : Text → Option J) where
    cap_scratch-Waits : (s : Source J) → NoNewline s.scratch → Waits (cap_scratch parse s)
    unfolding cap_scratch
    cap_scratch-Waits s h = elim (Bool-cases (ltb scratch_cap (length s.scratch))) [
      | inl e ↦ rw e (tt, omega arith)
      | inr e ↦ rw e (h, ground arith)
    ]

    -- Whatever arrives, what a source keeps for later has no newline in it (every complete line was
    -- handled) and is at most 1 MiB.
    pub feed-Waits :
        (s : Source J) (bytes : Text) → Waits s → s.records_in < 2 ^ 64 → Waits (feed parse s bytes)
    feed-Waits s [] h hr = subst Waits (sym (feed_nil parse s)) h
    feed-Waits s (b ∷ bytes) h hr = subst Waits (sym (feed_lem parse s b bytes hr)) (
        cap_scratch-Waits (fed parse s (b ∷ bytes)) (partial_of-NoNewline (s.scratch ++ b ∷ bytes)))
