-- ===== src/Source.antt =====
-- viewer/src/transport/ndjson_source.h and ndjson_source.cpp: the buffer between the bytes that a
-- pipe or a file delivers and the records that the UI thread drains. `parse` is `Record::parse` of
-- nlohmann/json; `none` means that it threw. The counters are 64-bit.
pub mod Chunks
pub mod Queue
pub mod Stream
mod Tests
use skygraph.Prelude.{
  ℕ, zero, suc, ◌+◌, ◌%◌, ◌^◌, Option, none, some, List, [], ◌∷◌, ◌++◌, ltb, if◌then◌else◌, length,
}
use skygraph.Framing.{Text, split_lines}

pub data State : Type 0 where
  disconnected connecting connected replaying error : State

pub record Source {ℓ} (J : Type ℓ) : Type ℓ where
  pub state : State
  pub error_msg : Text
  pub scratch : Text
  pub queue : List J
  pub bytes_in : ℕ
  pub records_in : ℕ

abbrev pub u64 : ℕ → ℕ
u64 n = n % 2 ^ 64

-- `1u << 20`
abbrev pub scratch_cap : ℕ
scratch_cap = 2 ^ 20

module _ {ℓ} {J : Type ℓ} where
  unfoldable pub fresh : Source J
  fresh = record {
    state = disconnected;
    error_msg = [];
    scratch = [];
    queue = [];
    bytes_in = 0;
    records_in = 0;
  }

  unfoldable pub set_state : Source J → State → Source J
  set_state s t = record s { state = t }

  unfoldable pub set_error : Source J → Text → Source J
  unfolding set_state
  set_error s msg = set_state (record s { error_msg = msg }) error

  -- Move up to `n` records from the queue to the end of `out`; the rounds that it made.
  unfoldable pub drain_loop : ℕ → List J → List J → ℕ → ℕ × List J × List J
  drain_loop zero out queue n = (n, out, queue)
  drain_loop (suc left) out [] n = (n, out, [])
  drain_loop (suc left) out (j ∷ queue) n = drain_loop left (out ++ j ∷ []) queue (n + 1)

  unfoldable pub drain : Source J → List J → ℕ → ℕ × List J × Source J
  unfolding drain_loop
  drain s out max =
      let (n, out', queue') = drain_loop max out s.queue 0 in (n, out', record s { queue = queue' })

  module _ (parse : Text → Option J) where
    -- The body of the loop: an empty line is skipped, and so is one that does not parse.
    unfoldable pub take_line : Source J → Text → Source J
    take_line s [] = s
    take_line s (b ∷ line) = elim (parse (b ∷ line)) [
      | none ↦ s
      | some j ↦ record s { queue = s.queue ++ j ∷ []; records_in = u64 (s.records_in + 1) }
    ]

    -- The light cap at the end of `Feed`.
    unfoldable pub cap_scratch : Source J → Source J
    cap_scratch s = if ltb scratch_cap (length s.scratch) then record s { scratch = [] } else s

    unfoldable pub feed : Source J → Text → Source J
    unfolding take_line cap_scratch
    feed s [] = s
    feed s (b ∷ bytes) =
        let (s', rest) =
          split_lines take_line (record s { bytes_in = u64 (s.bytes_in + length (b ∷ bytes)) })
            (s.scratch ++ b ∷ bytes) in
        cap_scratch (record s' { scratch = rest })
