-- ===== src/Source/Tests.antt =====
-- The theorems on the source at a concrete parser: a line of digits is its first byte, `?` fails.
use mathlib.Core.List.{foldl, flatten}
use skygraph.Prelude.{
  ℕ, ◌+◌, ◌≤◌, ◌≡◌, refl, Option, none, some, List, [], ◌∷◌, ◌++◌, ◌==◌, if◌then◌else◌, length, All,
  arith,
}
use skygraph.Framing.{Text, newline}
use skygraph.Framing.Lines.{partial_of, split}
use skygraph.Source.{Source, State, u64, scratch_cap, feed}
use skygraph.Source.Chunks.{taking, parsed}
use skygraph.Source.Stream.{Sendable, stream, submit-feed}
use skygraph.Writer.{terminate}

abbrev first_byte : Text → Option ℕ
first_byte [] = none
first_byte (b ∷ t) = if b == 63 then none else some b

abbrev idle : Source ℕ
idle = record {
  state = State.connected;
  error_msg = [];
  scratch = [];
  queue = 7 ∷ [];
  bytes_in = 2;
  records_in = 1;
}

abbrev two_lines : Text
two_lines = 49 ∷ 50 ∷ newline ∷ 63 ∷ newline ∷ 51 ∷ newline ∷ 52 ∷ []

feed_run : feed first_byte idle two_lines ≡ record {
  state = State.connected;
  error_msg = [];
  scratch = 52 ∷ [];
  queue = 7 ∷ 49 ∷ 51 ∷ [];
  bytes_in = 10;
  records_in = 3;
}
unfolding feed skygraph.Framing.each_line
feed_run = refl

abbrev records : List Text
records = (49 ∷ 50 ∷ []) ∷ [] ∷ (63 ∷ []) ∷ (51 ∷ []) ∷ []

stream_run : stream records ≡ (49 ∷ 50 ∷ newline ∷ 63 ∷ []) ++ newline ∷ 51 ∷ newline ∷ []
unfolding terminate
stream_run = refl

records-Sendable : All Sendable records
records-Sendable = (
  ((omega arith, (omega arith, tt)), omega arith),
  ((tt, omega arith), (((omega arith, tt), omega arith), (((omega arith, tt), omega arith), tt))),
)

half_line-small : length (partial_of (49 ∷ 50 ∷ [])) ≤ scratch_cap
unfolding split
half_line-small = omega arith

cut_stream :
    flatten ((49 ∷ 50 ∷ newline ∷ 63 ∷ []) ∷ (newline ∷ 51 ∷ newline ∷ []) ∷ []) ≡ stream records
unfolding terminate flatten
cut_stream = refl

submit-feed_example :
    foldl
      (feed first_byte)
      idle
      ((49 ∷ 50 ∷ newline ∷ 63 ∷ []) ∷ (newline ∷ 51 ∷ newline ∷ []) ∷ [])
    ≡ record (taking first_byte idle (parsed first_byte records)) {
      bytes_in = u64 (2 + length (stream records));
    }
submit-feed_example =
    submit-feed first_byte idle records
      ((49 ∷ 50 ∷ newline ∷ 63 ∷ []) ∷ (newline ∷ 51 ∷ newline ∷ []) ∷ []) (omega arith)
      (omega arith) refl records-Sendable cut_stream
