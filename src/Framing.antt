-- ===== src/Framing.antt =====
-- Splitting a byte stream into lines: the loop that `NdjsonSource::Feed`
-- (viewer/src/transport/ndjson_source.cpp) and `PipeServer::Impl::HandleClient`
-- (plugin/src/transport/pipe_server.cpp) both run over their buffer. Bytes are numbers.
pub mod Lines
use skygraph.Prelude.{
  ℕ, zero, suc, ◌+◌, Option, none, some, List, [], ◌∷◌, ◌==◌, if◌then◌else◌, length,
}

abbrev pub newline : ℕ
newline = b'\n'

abbrev pub Text : Type 0
Text = List ℕ

-- `find('\n', start)` on the bytes from `start` on: the bytes before the newline and those after.
unfoldable pub find_newline : Text → Option (Text × Text)
find_newline [] = none
find_newline (b ∷ bs) =
    let rest = find_newline bs in
    if b == newline
    then some ([], bs)
    else elim rest [ none ↦ none | some (line, after) ↦ some (b ∷ line, after) ]

-- The loop: hand every complete line over, and leave the bytes from `start` on. Each round passes a
-- newline, so as many rounds as there are bytes are enough.
unfoldable pub each_line {ℓ} : {S : Type ℓ} → ℕ → (S → Text → S) → S → Text → S × Text
unfolding find_newline
each_line zero handle s bytes = (s, bytes)
each_line (suc fuel) handle s bytes = elim (find_newline bytes) [
  | none ↦ (s, bytes)
  | some (line, rest) ↦ each_line fuel handle (handle s line) rest
]

abbrev pub split_lines {ℓ} : {S : Type ℓ} → (S → Text → S) → S → Text → S × Text
split_lines handle s bytes = each_line (suc (length bytes)) handle s bytes
