-- ===== src/Samplers/Streaming.antt =====
-- plugin/src/samplers/streaming_sampler.cpp: the hook of the archive reads and the summary of every
-- half second. The reads of several threads are interleaved; each atomic operation is a step, and
-- the two at the end of a read are one. `bytes_this_second` and `in_flight` are words of 64 and 32 bits; `bps` is the
-- conversion of the bytes to a rate, `ms` the division by 1000.0.
use skygraph.Prelude.{
  ℕ, ◌+◌, ◌-◌, ◌%◌, ◌^◌, String, Bool, true, false, Option, none, some, List, [], ◌∷◌, ◌++◌, leb,
  ltb, if◌then◌else◌,
}
use skygraph.Cpu.{
  ℤ, pos, negsuc, Accumulators, add_streaming_us, get_enabled_mask, set_enabled_mask,
}
use skygraph.Frame.Cache.{LatestCache, update_streaming}
use skygraph.Plugin.Records.{Value, str, nat, negative, num, object, end, field}

pub record StreamingSampler (F D : Type 0) : Type 0 where
  pub running : Bool
  pub hook_installed : Bool
  pub mask_bits : ℕ
  pub bytes_this_second : ℕ
  pub in_flight : ℕ
  pub hitch_threshold_us : ℕ
  pub acc : Accumulators
  pub cache : LatestCache F D
  pub submitted : List (Value D)

-- `a_us >= threshold`
unfoldable pub reaches : ℤ → ℕ → Bool
reaches (pos us) threshold = leb threshold us
reaches (negsuc us) threshold = false

unfoldable pub positive : ℤ → Bool
positive (pos us) = ltb 0 us
positive (negsuc us) = false

-- A word as `std::int64_t`.
unfoldable pub int64 : {D : Type 0} → ℕ → Value D
int64 word = let n = word % 2 ^ 64 in if ltb n (2 ^ 63) then nat n else negative (2 ^ 64 - 1 - n)

module _ {F D : Type 0} (ms : ℤ → D) (bps : ℕ → D) where
  unfoldable pub emit_hitch :
      StreamingSampler F D → D → ℤ → ℕ → Option String → StreamingSampler F D
  unfolding int64
  emit_hitch s t us bytes path = record s {
    submitted =
        s.submitted
        ++ object (
            field "type" (str "event.streaming_hitch") (
              field "t" (num t) (
                field "duration_ms" (num (ms us)) (
                  field "bytes" (int64 bytes)
                    (field "path" (str (elim path [ none ↦ "" | some p ↦ p ])) end)))))
          ∷ [];
  }

  -- The beginning of `ArchiveReadHook::thunk`.
  unfoldable pub read_begins : StreamingSampler F D → StreamingSampler F D
  read_begins s = record s { in_flight = (s.in_flight + 1) % 2 ^ 32 }

  -- `OnReadComplete`: the same accounting for a read of `us` microseconds.
  unfoldable pub on_read_complete :
      StreamingSampler F D → D → ℤ → ℕ → Option String → StreamingSampler F D
  unfolding positive reaches emit_hitch add_streaming_us
  on_read_complete s t us bytes path =
      let counted = record s {
        acc = add_streaming_us (s.acc) us;
        bytes_this_second = (s.bytes_this_second + bytes) % 2 ^ 64;
      } in
      let s' = if positive us then counted else s in
      let hitch = emit_hitch s' t us bytes path in
      if reaches us (s.hitch_threshold_us) then hitch else s'

  -- What follows the original in the thunk.
  unfoldable pub read_ends : StreamingSampler F D → D → ℤ → ℕ → StreamingSampler F D
  unfolding on_read_complete
  read_ends s t us bytes =
      on_read_complete (record s { in_flight = (s.in_flight + 2 ^ 32 - 1) % 2 ^ 32 }) t us bytes
        none

  -- A round of `SummaryLoop`: the bytes that it took, and the state.
  unfoldable pub summary : StreamingSampler F D → D → ℕ × StreamingSampler F D
  unfolding update_streaming
  summary s t =
      let bytes = s.bytes_this_second in
      (
        bytes,
        record s {
          bytes_this_second = 0;
          cache = update_streaming (s.cache) (s.in_flight) (s.in_flight) (bps bytes);
          submitted =
              s.submitted
              ++ object (
                  field "type" (str "streaming") (
                    field "t" (num t) (
                      field "queue_depth" (nat (s.in_flight)) (
                        field "bytes_per_sec" (num (bps bytes))
                          (field "in_flight" (nat (s.in_flight)) end)))))
                ∷ [];
        },
      )

-- `Start`, with what the installation of the hook answers.
unfoldable pub start : {F D : Type 0} → StreamingSampler F D → Bool → StreamingSampler F D
unfolding get_enabled_mask set_enabled_mask
start s installed =
    let hooked = record s {
      running = true;
      hook_installed = true;
      mask_bits = set_enabled_mask (record (get_enabled_mask (s.mask_bits)) { streaming = true });
    } in
    if s.running then s else if installed then hooked else record s { running = true }

unfoldable pub stop : {F D : Type 0} → StreamingSampler F D → StreamingSampler F D
stop s = record s { running = false }
