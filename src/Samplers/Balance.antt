-- ===== src/Samplers/Balance.antt =====
-- The bytes and the reads that the summaries of plugin/src/samplers/streaming_sampler.cpp report.
use skygraph.Prelude.{
  ℕ, ◌+◌, ◌-◌, ◌%◌, ◌^◌, ◌≡◌, refl, Bool, true, false, none, List, [], ◌∷◌, if◌then◌else◌, if-all,
  arith,
}
use skygraph.Cpu.{ℤ, add_streaming_us}
use skygraph.Samplers.Streaming.{
  StreamingSampler, reaches, positive, emit_hitch, read_begins, on_read_complete, read_ends,
  summary,
}

-- The steps of the threads that read and of the summary thread, in any order.
pub data Step (D : Type 0) : Type 0 where
  begins : Step D
  ends : D → ℤ → ℕ → Step D
  sums : D → Step D

module _ {D : Type 0} where
  -- The bytes of the reads that took time.
  abbrev pub counted : List (Step D) → ℕ
  counted [] = 0
  counted (begins ∷ ss) = counted ss
  counted (ends t us bytes ∷ ss) = (if positive us then bytes else 0) + counted ss
  counted (sums t ∷ ss) = counted ss

  abbrev pub begun : List (Step D) → ℕ
  begun [] = 0
  begun (begins ∷ ss) = 1 + begun ss
  begun (ends t us bytes ∷ ss) = begun ss
  begun (sums t ∷ ss) = begun ss

  abbrev pub ended : List (Step D) → ℕ
  ended [] = 0
  ended (begins ∷ ss) = ended ss
  ended (ends t us bytes ∷ ss) = 1 + ended ss
  ended (sums t ∷ ss) = ended ss

add_if :
    (b : Bool) (n bytes : ℕ)
    → (if b then (n + bytes) % 2 ^ 64 else n) % 2 ^ 64 ≡ (n + (if b then bytes else 0)) % 2 ^ 64
add_if true n bytes = omega arith
add_if false n bytes = omega arith

module _ {F D : Type 0} (ms : ℤ → D) (bps : ℕ → D) where
  -- The bytes that all summaries took, and the state.
  unfoldable pub run : StreamingSampler F D → List (Step D) → ℕ × StreamingSampler F D
  unfolding read_begins read_ends summary
  run s [] = (0, s)
  run s (begins ∷ ss) = run (read_begins ms bps s) ss
  run s (ends t us bytes ∷ ss) = run (read_ends ms bps s t us bytes) ss
  run s (sums t ∷ ss) =
      let (taken, s') = summary ms bps s t in let (n, s'') = run s' ss in (taken + n, s'')

  -- What a read that is over leaves of the two counters.
  abbrev Leaves : StreamingSampler F D → ℕ → ℕ → Type 0
  Leaves s bytes flying = (s.bytes_this_second ≡ bytes) × (s.in_flight ≡ flying)

  counted-Leaves :
      (b : Bool) (s : StreamingSampler F D) (us : ℤ) (bytes : ℕ)
      → Leaves
          (if b
            then record s {
              acc = add_streaming_us (s.acc) us;
              bytes_this_second = (s.bytes_this_second + bytes) % 2 ^ 64;
            }
            else s)
          (if b then (s.bytes_this_second + bytes) % 2 ^ 64 else s.bytes_this_second)
          (s.in_flight)
  counted-Leaves true s us bytes = (refl, refl)
  counted-Leaves false s us bytes = (refl, refl)

  read_ends-Leaves :
      (s : StreamingSampler F D) (t : D) (us : ℤ) (bytes : ℕ)
      → Leaves
          (read_ends ms bps s t us bytes)
          (if positive us then (s.bytes_this_second + bytes) % 2 ^ 64 else s.bytes_this_second)
          ((s.in_flight + 2 ^ 32 - 1) % 2 ^ 32)
  unfolding read_ends on_read_complete emit_hitch
  read_ends-Leaves s t us bytes =
      let s0 = record s { in_flight = (s.in_flight + 2 ^ 32 - 1) % 2 ^ 32 } in
      let s1 =
        if positive us
        then record s0 {
          acc = add_streaming_us (s0.acc) us;
          bytes_this_second = (s0.bytes_this_second + bytes) % 2 ^ 64;
        }
        else s0 in
      if-all
        (λ s'.
          Leaves s'
            (if positive us then (s.bytes_this_second + bytes) % 2 ^ 64 else s.bytes_this_second)
            ((s.in_flight + 2 ^ 32 - 1) % 2 ^ 32))
        (reaches us (s.hitch_threshold_us)) (emit_hitch ms bps s1 t us bytes none) s1
        (counted-Leaves (positive us) s0 us bytes) (counted-Leaves (positive us) s0 us bytes)

  -- However the reads of any threads and the summaries are interleaved: the bytes that the summaries
  -- took and those that wait are the bytes of the reads that took time (modulo 2^64), and the reads
  -- in flight are those that began and did not end (modulo 2^32).
  pub run-balance :
      (s : StreamingSampler F D) (ss : List (Step D))
      → (((run s ss).0 + (run s ss).1.bytes_this_second) % 2 ^ 64
          ≡ (s.bytes_this_second + counted ss) % 2 ^ 64)
        × (((run s ss).1.in_flight + ended ss) % 2 ^ 32 ≡ (s.in_flight + begun ss) % 2 ^ 32)
  unfolding run read_begins summary
  run-balance s [] = (omega arith, omega arith)
  run-balance s (begins ∷ ss) =
      let (p, q) = run-balance (read_begins ms bps s) ss in (p, omega (arith, q))
  run-balance s (ends t us bytes ∷ ss) =
      let (p, q) = run-balance (read_ends ms bps s t us bytes) ss in
      let (b, f) = read_ends-Leaves s t us bytes in
      (omega (arith, p, b, add_if (positive us) (s.bytes_this_second) bytes), omega (arith, q, f))
  run-balance s (sums t ∷ ss) =
      let (p, q) = run-balance (summary ms bps s t).1 ss in (omega (arith, p), q)
