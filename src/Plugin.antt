-- ===== src/Plugin.antt =====
-- plugin/src/plugin.cpp: the commands of the viewer and the heartbeat. A line is a string, and
-- `bytes` are its bytes; `now` is the wall clock. `submitted` is what went to WriterThread::Submit.
pub mod Records
pub mod Commands
pub mod Decode
pub mod Heartbeat
pub mod Parts
pub mod Samples
pub mod Saved
pub mod Startup
pub mod Toggles
mod Tests
use text.Mathlib.Text.{◌==◌}
use skygraph.Prelude.{
  ℕ, zero, suc, ◌+◌, ◌%◌, ◌^◌, String, Bool, true, false, ◌>>=◌, Option, none, some, List, [], ◌∷◌,
  ◌++◌, if◌then◌else◌,
}
use skygraph.Framing.{Text}
use skygraph.Recorder.{RollingRecorder, Files, pin_current}
use skygraph.Plugin.Records.{Value, Fields, PluginJson, str, nat, num, object, end, field}

-- `LogLevelFromString`
pub data LogLevel : Type 0 where
  trace debug info warn err critical : LogLevel

unfoldable pub log_level_from_string : String → LogLevel
log_level_from_string s =
    if s == "trace"
    then trace
    else if s == "debug"
    then debug
    else if s == "info"
    then info
    else if s == "warn"
    then warn
    else if s == "error"
    then err
    else if s == "critical"
    then critical
    else info

-- The recorder, if there is one, and what was submitted.
pub record Globals (P W : Type 0) : Type 0 where
  pub recorder : Option (RollingRecorder P W)
  pub submitted : List String

module _ {D : Type 0} where
  abbrev pub ping_reply : D → Value D
  ping_reply now =
      object
        (field "type" (str "heartbeat") (field "t" (num now) (field "reply_to" (str "ping") end)))

  abbrev pub ack : D → String → Value D
  ack now path = object (
      field "type" (str "ack")
        (field "t" (num now) (field "for_cmd" (str "save_session") (field "path" (str path) end))))

  -- `g_writer->Submit(reply.dump())`: nothing if `dump` throws.
  unfoldable pub submit_dump :
      {J P W : Type 0} → PluginJson D J P → Globals P W → Value D → Globals P W
  submit_dump json s v = elim (json.dump v) [
    | none ↦ s
    | some line ↦ record s { submitted = s.submitted ++ line ∷ [] }
  ]

  module _ {J P W : Type 0} (json : PluginJson D J P) (bytes : String → Text) (fs : Files P W) where
    -- After `PinCurrent`.
    unfoldable pub acknowledge : Globals P W → D → Option P → Globals P W
    unfolding submit_dump
    acknowledge s now none = s
    acknowledge s now (some p) = elim (json.path_string p) [
      | none ↦ s
      | some path ↦ submit_dump json s (ack now path)
    ]

    -- The branch of save_session, with its name. The clocks are of the pin and of the file after it.
    unfoldable pub save_session : Globals P W → D → ℕ → ℕ → ℕ → String → Globals P W
    unfolding acknowledge pin_current
    save_session s now steady stamp later name = elim (s.recorder) [
      | none ↦ s
      | some r ↦
          let (pinned, r') = pin_current fs r (bytes name) steady stamp later in
          acknowledge (record s { recorder = some r' }) now pinned
    ]

    -- What is done for the value of "cmd".
    unfoldable pub run_command : Globals P W → D → ℕ → ℕ → ℕ → J → String → Globals P W
    unfolding submit_dump save_session
    run_command s now steady stamp later j cmd =
        if cmd == "ping"
        then submit_dump json s (ping_reply now)
        else if cmd == "save_session"
        then elim (json.value j "name" "session") [
          | none ↦ s
          | some name ↦ save_session s now steady stamp later name
        ]
        else s

    unfoldable pub handle_command : Globals P W → D → ℕ → ℕ → ℕ → String → Globals P W
    unfolding run_command
    handle_command s now steady stamp later line = elim (json.parse line) [
      | none ↦ s
      | some j ↦ elim (json.value j "cmd" "") [
        | none ↦ s
        | some cmd ↦ run_command s now steady stamp later j cmd
      ]
    ]

  unfoldable pub heartbeat : D → ℕ → D → ℕ → Value D
  heartbeat now seq uptime clients = object (
      field "type" (str "heartbeat") (
        field "t" (num now) (
          field "seq" (nat seq)
            (field "uptime_sec" (num uptime) (field "clients" (nat clients) end)))))

  -- `HeartbeatLoop`: what it submits in rounds of the given times, uptimes and numbers of clients.
  unfoldable pub heartbeat_loop : ℕ → List (D × D × ℕ) → List (Value D)
  unfolding heartbeat
  heartbeat_loop seq [] = []
  heartbeat_loop seq ((now, uptime, clients) ∷ rounds) =
      heartbeat now seq uptime clients ∷ heartbeat_loop ((seq + 1) % 2 ^ 64) rounds
