-- ===== src/App/Tests.antt =====
-- The theorems on a session at a concrete one: a line is a heartbeat at the time of its first byte,
-- `?` does not parse.
use mathlib.Core.List.{flatten}
use text.Mathlib.Text.{◌==◌ as str_eq}
use skygraph.Prelude.{
  ℕ, ◌+◌, ◌*◌, Bool, true, ◌≡◌, ◌⊎◌, ◌≤◌, refl, String, Option, none, some, List, [], ◌∷◌, ◌++◌,
  ◌==◌, if◌then◌else◌, length, All, arith,
}
use skygraph.Framing.{Text, newline}
use skygraph.Source.{Source, State}
use skygraph.Source.Chunks.{parsed}
use skygraph.Source.Stream.{Sendable, stream}
use skygraph.Writer.{terminate, ends_line}
use skygraph.Plugin.Records.{Value, str, num, object, field, end}
use skygraph.Plugin.Samples.{view, empty_store}
use skygraph.Store.Decode.{Arg}
use skygraph.Store.Ingest.{done}
use skygraph.Store.Frames.{ingest_all}
use skygraph.App.{save_command, App, live, drain_max, save_session}
use skygraph.App.Commands.{Dumps, sent_bytes, commands-arrive}
use skygraph.Client.{PipeClient, first_backoff, send_command, command_bytes}
use skygraph.Pipe.{Read, ok, more_data, handle_client}
use skygraph.Pipe.Commands.{bytes_of}
use skygraph.App.Session.{Step, reads, draws, chunks, records_of, session, session-ingests}
use skygraph.App.Shows.{frames, Threw, session-shows}

abbrev heartbeats : Text → Option (Value ℕ)
heartbeats [] = none
heartbeats (b ∷ t) =
    if b == 63 then none else some (object (field "type" (str "heartbeat") (field "t" (num b) end)))

abbrev source : Source (Value ℕ)
source = record {
  state = State.connected;
  error_msg = [];
  scratch = [];
  queue = [];
  bytes_in = 0;
  records_in = 0;
}

abbrev format : String → List (Arg ℕ) → String
format f args = f

abbrev clock : ℕ → ℕ
clock i = 1000 + i

abbrev steps : List Step
steps =
    reads (49 ∷ 50 ∷ newline ∷ 63 ∷ [])
    ∷ draws clock
    ∷ reads (newline ∷ 51 ∷ [])
    ∷ draws clock
    ∷ reads (newline ∷ [])
    ∷ []

abbrev records : List Text
records = (49 ∷ 50 ∷ []) ∷ (63 ∷ []) ∷ (51 ∷ []) ∷ []

records-Sendable : All Sendable records
records-Sendable = (
  ((omega arith, (omega arith, tt)), omega arith),
  (((omega arith, tt), omega arith), (((omega arith, tt), omega arith), tt)),
)

steps-stream : flatten (chunks steps) ≡ stream records
unfolding terminate flatten
steps-stream = refl

session-ingests_example :
    let p = session view format heartbeats (source, done empty_store) steps in
    (seen : List (Value ℕ × ℕ)) × (p.1 ≡ ingest_all view format empty_store seen)
    × (records_of seen ++ p.0.queue ≡ [] ++ parsed heartbeats records)
session-ingests_example =
    session-ingests view format heartbeats source empty_store steps records (omega arith)
      (omega arith) refl records-Sendable steps-stream

few : length ([] ++ parsed heartbeats records) ≤ length (clock ∷ []) * drain_max
few = omega arith

session-shows_example :
    let o =
      (session view format heartbeats
        (source, done empty_store)
        (steps ++ frames (clock ∷ []))).1 in
    Threw o
    ⊎ ((seen : List (Value ℕ × ℕ)) × (o ≡ ingest_all view format empty_store seen)
        × (records_of seen ≡ [] ++ parsed heartbeats records))
session-shows_example =
    session-shows view format heartbeats source empty_store steps records (clock ∷ []) (omega arith)
      (omega arith) refl records-Sendable steps-stream few

-- a connected pipe whose writes succeed
abbrev client : PipeClient ℕ (Value ℕ)
client = record {
  running = true;
  handle = some 5;
  backoff = first_backoff;
  slept = 0;
  source = source;
}

abbrev app : App ℕ (Value ℕ) ℕ ℕ
app = record {
  running = true;
  pipe_name = "skygraph";
  source = some (live client);
  store = empty_store;
}

abbrev whole_write : ℕ → Text → Bool × ℕ
whole_write h t = (true, length t)

abbrev keep : List Text → Text → List Text
keep s line = s ++ line ∷ []

-- a command by its name
abbrev dump_name : Value ℕ → Option Text
dump_name (object (field cmd c (field key (str name) end))) =
    if str_eq name ""
    then none
    else if str_eq name "a"
    then some (123 ∷ 125 ∷ [])
    else some (91 ∷ [])
dump_name v = none

abbrev commands : List (String × Text)
commands = ("a", 123 ∷ 125 ∷ []) ∷ ("b", 91 ∷ []) ∷ []

commands-Dumps : All (Dumps dump_name) commands
unfolding save_command
commands-Dumps = ((refl, (omega arith, (omega arith, tt))), ((refl, (omega arith, tt)), tt))

-- the two lines, cut inside the first one and inside a message
abbrev pieces : List Read
pieces = ok (123 ∷ []) ∷ more_data (125 ∷ newline ∷ 91 ∷ []) ∷ ok (newline ∷ []) ∷ []

pieces-sent : bytes_of pieces ≡ sent_bytes dump_name whole_write app commands
unfolding save_session save_command send_command command_bytes ends_line
pieces-sent = refl

commands-arrive_example :
    handle_client (some keep) [] [] pieces ≡ ((123 ∷ 125 ∷ []) ∷ (91 ∷ []) ∷ [], [])
commands-arrive_example =
    commands-arrive keep dump_name whole_write app client 5 [] commands pieces refl refl
      commands-Dumps tt pieces-sent
