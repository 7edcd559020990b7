-- ===== src/App.antt =====
-- viewer/src/app.cpp: the source that the window shows, its change, and what a frame does before it
-- draws. Windows, Direct3D and ImGui are not modelled; a message is what `WndProc` tests of it.
pub mod Commands
pub mod Session
pub mod Shows
mod Tests
use text.Mathlib.Text.{◌==◌}
use skygraph.Prelude.{
  ℕ, suc, ◌+◌, ◌%◌, String, Bool, true, false, not, ◌&&◌, ◌||◌, Option, none, some, List, [], ◌∷◌,
  if◌then◌else◌,
}
use skygraph.Prelude
use skygraph.Framing.{Text}
use skygraph.Source.{Source, fresh, drain}
use skygraph.Client.{PipeClient, first_backoff, start, stop, send_command}
use skygraph.Client.Replay
use skygraph.Client.Replay.{FileSource}
use skygraph.Store.{TelemetryStore}
use skygraph.Store.Json.{Json}
use skygraph.Store.Decode.{Arg}
use skygraph.Store.Ingest.{Outcome, done, threw, clear}
use skygraph.Plugin.Records.{Value, str, object, end, field}
use skygraph.Store.Frames.{ingest_all}

-- What `_source` points to.
pub data AppSource (H J : Type 0) : Type 0 where
  live : PipeClient H J → AppSource H J
  replaying : FileSource J → AppSource H J

pub record App (H J F D : Type 0) : Type 0 where
  pub running : Bool
  pub pipe_name : String
  pub source : Option (AppSource H J)
  pub store : TelemetryStore J F D

-- The answer of `WndProc`: ImGui took the message, it is handled here, or the system handles it.
pub data Handled : Type 0 where
  taken : Handled
  resized : ℕ → ℕ → Handled
  ignored : Handled
  quit : Handled
  default : Handled

pub data WindowMessage : Type 0 where
  -- minimized, width and height
  size : Bool → ℕ → ℕ → WindowMessage
  -- is it the menu key?
  sys_command : Bool → WindowMessage
  destroy : WindowMessage
  other : WindowMessage

-- `has_app` is `g_app`.
unfoldable pub wnd_proc : Bool → Bool → WindowMessage → Handled
wnd_proc by_imgui has_app (size minimized w h) =
    if by_imgui then taken else if has_app && not minimized then resized w h else ignored
wnd_proc by_imgui has_app (sys_command menu) =
    if by_imgui then taken else if menu then ignored else default
wnd_proc by_imgui has_app destroy = if by_imgui then taken else quit
wnd_proc by_imgui has_app other = if by_imgui then taken else default

-- `OnResize`: are the buffers resized?
unfoldable pub resizes : Bool → ℕ → ℕ → Bool
resizes has_swap w h = has_swap && not (Prelude.◌==◌ w 0) && not (Prelude.◌==◌ h 0)

-- The default of `Drain`.
abbrev pub drain_max : ℕ
drain_max = 4096

-- Each record with the time at which it is ingested, the `i`-th and those after it.
unfoldable pub stamp : {J : Type 0} → (ℕ → ℕ) → ℕ → List J → List (J × ℕ)
stamp now i [] = []
stamp now i (j ∷ js) = (j, now i) ∷ stamp now (suc i) js

module _ {H J : Type 0} where
  -- `_source->Stop()`, if there is one.
  unfoldable pub stop_source : Option (AppSource H J) → Option (AppSource H J)
  unfolding stop Replay.stop
  stop_source none = none
  stop_source (some (live c)) = some (live (stop c))
  stop_source (some (replaying f)) = some (replaying (Replay.stop f))

module _ {H J F D : Type 0} where
  -- The source that was stopped, and the state with the new one.
  module _ (json : Json J F D) where
    unfoldable pub open_live_pipe : App H J F D → Option (AppSource H J) × App H J F D
    unfolding clear start fresh stop_source
    open_live_pipe a = (
      stop_source (a.source),
      record a {
        store = clear json (a.store);
        source = some (
            live (
              start (record {
                running = false;
                handle = none;
                backoff = first_backoff;
                slept = 0;
                source = fresh;
              })));
      },
    )

    unfoldable pub open_replay_file : App H J F D → Text → Option (AppSource H J) × App H J F D
    unfolding clear fresh stop_source
    open_replay_file a path = (
      stop_source (a.source),
      record a {
        store = clear json (a.store);
        source = some (replaying (record { path = path; running = true; source = fresh }));
      },
    )

    -- `Run`, before its loop: a path is replayed, otherwise the pipe is opened.
    unfoldable pub open_first : App H J F D → Text → Option (AppSource H J) × App H J F D
    unfolding open_live_pipe open_replay_file
    open_first a [] = open_live_pipe a
    open_first a (c ∷ path) = open_replay_file a (c ∷ path)

-- The command with a name.
unfoldable pub save_command : {V : Type 0} → String → Value V
save_command name = object (field "cmd" (str "save_session") (field "name" (str name) end))

-- The callback of the status bar: the bytes that are written, if any; `none` where `dump` throws. The
-- command goes to a live pipe only.
unfoldable pub save_session :
    {H J F D V : Type 0}
    → (Value V → Option Text)
    → (H → Text → Bool × ℕ)
    → App H J F D
    → String
    → Option (Option Text)
unfolding save_command send_command
save_session dump write_file a name = elim (a.source) [
  | none ↦ some none
  | some source ↦ elim source [
    | live c ↦ elim (dump (save_command name)) [
      | none ↦ none
      | some line ↦ some (send_command write_file c line).1
    ]
    | replaying f ↦ some none
  ]
]

module _ {J F D : Type 0} (json : Json J F D) (format : String → List (Arg F) → String) where
  -- The beginning of `Frame`: what is drained of the source is ingested.
  unfoldable pub frame :
      Source J → TelemetryStore J F D → (ℕ → ℕ) → Source J × Outcome (TelemetryStore J F D)
  unfolding drain ingest_all stamp
  frame source store now =
      let (n, scratch, source') = drain source [] drain_max in
      (source', ingest_all json format store (stamp now 0 scratch))
