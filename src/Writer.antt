-- ===== src/Writer.antt =====
-- plugin/src/transport/writer_thread.h and writer_thread.cpp: how a record is framed when it is
-- submitted. (The thread: Writer/Loop.antt.)
pub mod Loop
pub mod Sinks
pub mod Following
pub mod Recorded
mod Tests
use skygraph.Prelude.{
  ℕ, Bool, false, Option, none, some, [], ◌∷◌, ◌++◌, ◌==◌, if◌then◌else◌, ◌≡◌, arith,
}
use skygraph.Framing.{Text, newline}
use skygraph.Framing.Lines.{NoNewline}

-- `a_record.back() == '\n'`, of a record that begins with `b`
unfoldable pub ends_line : ℕ → Text → Bool
ends_line b [] = b == newline
ends_line b (c ∷ r) = ends_line c r

-- What `Submit` hands to the ring: nothing for an empty record, otherwise the record with a newline
-- at its end.
unfoldable pub terminate : Text → Option Text
unfolding ends_line
terminate [] = none
terminate (b ∷ r) = if ends_line b r then some (b ∷ r) else some ((b ∷ r) ++ newline ∷ [])

pub ends_line-NoNewline : (b : ℕ) (r : Text) → NoNewline (b ∷ r) → ends_line b r ≡ false
unfolding ends_line
ends_line-NoNewline b [] h = ground (arith, h.0)
ends_line-NoNewline b (c ∷ r) h = ends_line-NoNewline c r h.1

pub terminate-NoNewline :
    (b : ℕ) (r : Text) → NoNewline (b ∷ r) → terminate (b ∷ r) ≡ some ((b ∷ r) ++ newline ∷ [])
unfolding terminate
terminate-NoNewline b r h = rw (ends_line-NoNewline b r h, terminate)
