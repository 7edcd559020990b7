-- ===== src/Client/Replay.antt =====
-- viewer/src/transport/file_source.h and file_source.cpp: the replay of a recorded session, with what
-- the reads of the file give as a list; where the list ends, `_running` is false.
use mathlib.Core.List.{foldl, flatten}
use skygraph.Prelude.{
  ◌^◌, ◌<◌, ◌≡◌, refl, ap, ◌∙◌, Bool, false, Option, none, some, List, [], ◌∷◌, ◌++◌, if◌then◌else◌,
  All,
}
use skygraph.Framing.{Text}
use skygraph.Source.{Source, State, set_state, set_error, feed}
use skygraph.Source.Chunks.{parsed}
use skygraph.Source.Stream.{stream, Sendable, submit-feed}

pub record FileSource {κ} (J : Type κ) : Type κ where
  pub path : Text
  pub running : Bool
  pub source : Source J

-- What `gzread` gives: an error with the text of `gzerror` (none for a null pointer), the end of the
-- file, no bytes before its end, or bytes.
pub data GzRead : Type 0 where
  gz_error : Option Text → GzRead
  end_of_file : GzRead
  nothing_yet : GzRead
  bytes : Text → GzRead

-- "open failed: "
abbrev pub open_failed : Text
open_failed = 111 ∷ 112 ∷ 101 ∷ 110 ∷ 32 ∷ 102 ∷ 97 ∷ 105 ∷ 108 ∷ 101 ∷ 100 ∷ 58 ∷ 32 ∷ []

-- "gzread error: "
abbrev pub gzread_error : Text
gzread_error = 103 ∷ 122 ∷ 114 ∷ 101 ∷ 97 ∷ 100 ∷ 32 ∷ 101 ∷ 114 ∷ 114 ∷ 111 ∷ 114 ∷ 58 ∷ 32 ∷ []

abbrev pub or_unknown : Option Text → Text
or_unknown none = 63 ∷ []
or_unknown (some msg) = msg

module _ {κ} {J : Type κ} where
  unfoldable pub stop : FileSource J → FileSource J
  unfolding set_state
  stop f =
      if f.running
      then record f { running = false; source = set_state (f.source) State.disconnected }
      else f

  module _ (parse : Text → Option J) where
    unfoldable pub read_file : Source J → List GzRead → Source J
    unfolding feed set_state set_error
    read_file s [] = s
    read_file s (gz_error msg ∷ reads) = set_error s (gzread_error ++ or_unknown msg)
    read_file s (end_of_file ∷ reads) = set_state s State.replaying
    read_file s (nothing_yet ∷ reads) = read_file s reads
    read_file s (bytes bs ∷ reads) = read_file (feed parse s bs) reads

    -- `Loop`: `gzopen` gives the reads of the file, or fails.
    unfoldable pub replay : FileSource J → Option (List GzRead) → FileSource J
    unfolding read_file set_state set_error
    replay f none = record f {
      source = set_error (set_state (f.source) State.connecting) (open_failed ++ f.path);
    }
    replay f (some reads) = record f {
      source = read_file (set_state (set_state (f.source) State.connecting) State.replaying) reads;
    }

-- The content of the file, as the reads before its end cut it.
abbrev pub chunks : List GzRead → List Text
chunks [] = []
chunks (gz_error msg ∷ reads) = []
chunks (end_of_file ∷ reads) = []
chunks (nothing_yet ∷ reads) = chunks reads
chunks (bytes bs ∷ reads) = bs ∷ chunks reads

-- The reads reach the end of the file.
abbrev pub Drained : List GzRead → Type 0
Drained [] = ⊥
Drained (gz_error msg ∷ reads) = ⊥
Drained (end_of_file ∷ reads) = Unit
Drained (nothing_yet ∷ reads) = Drained reads
Drained (bytes bs ∷ reads) = Drained reads

module _ {J : Type 0} (parse : Text → Option J) where
  read_file-chunks :
      (s : Source J) (reads : List GzRead)
      → Drained reads
      → read_file parse s reads ≡ set_state (foldl (feed parse) s (chunks reads)) State.replaying
  unfolding read_file
  read_file-chunks s [] h = absurd h
  read_file-chunks s (gz_error msg ∷ reads) h = absurd h
  read_file-chunks s (end_of_file ∷ reads) h = refl
  read_file-chunks s (nothing_yet ∷ reads) h = read_file-chunks s reads h
  read_file-chunks s (bytes bs ∷ reads) h = read_file-chunks (feed parse s bs) reads h

  -- A file of whole records (no newline inside, none above 1 MiB) that is read to its end, however
  -- the reads cut it: each record that parses is queued once, in order, nothing is left over, and
  -- the source stays in the replaying state.
  pub replay-stream :
      (f : FileSource J) (reads : List GzRead) (rs : List Text)
      → f.source.records_in < 2 ^ 64
      → f.source.bytes_in < 2 ^ 64
      → f.source.scratch ≡ []
      → All Sendable rs
      → Drained reads
      → flatten (chunks reads) ≡ stream rs
      → ((replay parse f (some reads)).source.queue ≡ f.source.queue ++ parsed parse rs)
        × ((replay parse f (some reads)).source.scratch ≡ [])
        × ((replay parse f (some reads)).source.state ≡ State.replaying)
  unfolding replay set_state
  replay-stream f reads rs hr hb empty h d e =
      let opened : Source J = set_state (set_state (f.source) State.connecting) State.replaying in
      let all =
        read_file-chunks opened reads d
        ∙ ap (λ s. set_state s State.replaying)
            (submit-feed parse opened rs (chunks reads) hr hb empty h e) in
      (
        ap (λ (s : Source J). s.queue) all,
        ap (λ (s : Source J). s.scratch) all ∙ empty,
        ap (λ (s : Source J). s.state) all,
      )
