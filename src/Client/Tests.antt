-- ===== src/Client/Tests.antt =====
-- The theorems on the client at a concrete history of attempts; the handles are numbers.
use mathlib.Core.List.{flatten}
use skygraph.Prelude.{
  ℕ, ◌+◌, ◌≡◌, refl, true, Option, none, some, List, [], ◌∷◌, ◌++◌, ◌==◌, if◌then◌else◌, All, arith,
}
use skygraph.Framing.{Text, newline}
use skygraph.Source.{Source, State}
use skygraph.Source.Chunks.{parsed}
use skygraph.Source.Stream.{stream, Sendable}
use skygraph.Writer.{terminate}
use skygraph.Client.{PipeClient, Attempt, busy, failed, opened, got, more_data, broken, loop}
use skygraph.Client.Backoff.{Unstopped, delay, loop-delay}
use skygraph.Client.Sessions.{all_bytes, submit-loop, reconnect_glues}
use skygraph.Client.Replay.{FileSource, GzRead, nothing_yet, end_of_file, bytes, chunks}

abbrev first_byte : Text → Option ℕ
first_byte [] = none
first_byte (b ∷ t) = if b == 63 then none else some b

abbrev digit : ℕ → Text
digit n = (48 + n) ∷ []

abbrev fresh_source : Source ℕ
fresh_source = record {
  state = State.disconnected;
  error_msg = [];
  scratch = [];
  queue = 7 ∷ [];
  bytes_in = 0;
  records_in = 0;
}

abbrev started : PipeClient ℕ ℕ
started = record { running = true; handle = none; backoff = 250; slept = 0; source = fresh_source }

abbrev history : List (Attempt ℕ)
history =
    failed 2
    ∷ opened 1 (got (49 ∷ 50 ∷ []) ∷ got [] ∷ more_data (newline ∷ 63 ∷ []) ∷ broken ∷ [])
    ∷ busy
    ∷ failed 2
    ∷ opened 3 (got (newline ∷ 51 ∷ newline ∷ []) ∷ more_data [] ∷ [])
    ∷ busy
    ∷ failed 2
    ∷ []

abbrev records : List Text
records = (49 ∷ 50 ∷ []) ∷ (63 ∷ []) ∷ (51 ∷ []) ∷ []

history-Unstopped : All (Unstopped {H = ℕ}) history
history-Unstopped = (tt, (tt, (tt, (tt, (tt, (tt, (tt, tt)))))))

loop-delay_example :
    ((loop first_byte digit started history).running ≡ true)
    × ((loop first_byte digit started history).backoff ≡ delay 2)
    × ((loop first_byte digit started history).slept ≡ 2251)
loop-delay_example = loop-delay first_byte digit started 0 history refl refl history-Unstopped

-- 250 for the first failure, 250 after each connection, 250 and 500 twice, and one empty read.
loop_run :
    ((loop first_byte digit started history).slept ≡ 2251)
    × ((loop first_byte digit started history).backoff ≡ 1000)
unfolding loop skygraph.Source.feed skygraph.Framing.each_line
loop_run = (refl, refl)

records-Sendable : All Sendable records
records-Sendable = (
  ((omega arith, (omega arith, tt)), omega arith),
  (((omega arith, tt), omega arith), (((omega arith, tt), omega arith), tt)),
)

history-stream : flatten (all_bytes history) ≡ stream records
unfolding terminate flatten
history-stream = refl

submit-loop_example :
    ((loop first_byte digit started history).source.queue ≡ (7 ∷ []) ++ parsed first_byte records)
    × ((loop first_byte digit started history).source.scratch ≡ [])
submit-loop_example =
    submit-loop first_byte digit started history records refl (omega arith) (omega arith) refl
      history-Unstopped records-Sendable history-stream

-- `?` 50 is cut off
abbrev broken_off : List (Attempt ℕ)
broken_off = opened 1 (got (63 ∷ 50 ∷ []) ∷ broken ∷ []) ∷ busy ∷ []

abbrev connected_again : List (Attempt ℕ)
connected_again = opened 3 (got (51 ∷ newline ∷ 52 ∷ newline ∷ []) ∷ broken ∷ []) ∷ []

broken_off-flat : flatten (all_bytes broken_off) ≡ 63 ∷ 50 ∷ []
unfolding flatten
broken_off-flat = refl

connected_again-stream : flatten (all_bytes connected_again) ≡ stream ((51 ∷ []) ∷ (52 ∷ []) ∷ [])
unfolding terminate flatten
connected_again-stream = refl

reconnect_glues_example :
    ((loop first_byte digit started (broken_off ++ connected_again)).source.queue
      ≡ (7 ∷ []) ++ 52 ∷ [])
    × ((loop first_byte digit started connected_again).source.queue ≡ (7 ∷ []) ++ 51 ∷ 52 ∷ [])
reconnect_glues_example =
    reconnect_glues first_byte digit started broken_off connected_again 63 (50 ∷ []) 51 []
      ((52 ∷ []) ∷ []) 51 refl (omega arith) (omega arith) refl (tt, (tt, tt)) (tt, tt)
      broken_off-flat connected_again-stream
      (((omega arith, tt), omega arith), (((omega arith, tt), omega arith), tt))
      ((omega arith, (omega arith, (omega arith, tt))), omega arith) refl refl

abbrev file : FileSource ℕ
file = record { path = 97 ∷ []; running = true; source = fresh_source }

abbrev file_reads : List GzRead
file_reads =
    bytes (49 ∷ 50 ∷ newline ∷ 63 ∷ [])
    ∷ nothing_yet
    ∷ bytes (newline ∷ 51 ∷ newline ∷ [])
    ∷ end_of_file
    ∷ []

file_reads-stream : flatten (chunks file_reads) ≡ stream records
unfolding terminate flatten
file_reads-stream = refl
