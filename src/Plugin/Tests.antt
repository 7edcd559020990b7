-- ===== src/Plugin/Tests.antt =====
-- The theorems on the plugin at concrete commands, messages and rounds.
use text.Mathlib.Text.{◌==◌}
use skygraph.Prelude.{
  ◌&&◌, if◌then◌else◌, ℕ, ◌+◌, ◌%◌, ◌^◌, ◌≡◌, refl, String, Bool, true, none, some, List, [], ◌∷◌,
  ◌++◌, if◌then◌else◌,
}
use skygraph.Framing.{Text}
use skygraph.Recorder.{RollingRecorder, Files, pin_current}
use skygraph.Config.{PluginConfig, CpuBreakdownConfig, default_config}
use skygraph.Store.Decode.{Arg}
use skygraph.Store.Ingest.{done, ingest}
use skygraph.Plugin.{Globals, ack, handle_command}
use skygraph.Plugin.Records.{PluginJson}
use skygraph.Plugin.Samples.{same, view, view-Decodes, empty_store}
use skygraph.Plugin.Saved.{save_session-saved}
use skygraph.Plugin.Startup.{Message, post_load, data_loaded, save_game, on_messages, load}
use skygraph.Plugin.Parts.{Running}
use skygraph.Plugin.Toggles.{repeat, installs, load-Running_all}

-- A command is its line, and saves the session as "run".
abbrev commands : PluginJson ℕ String ℕ
commands = record {
  parse = λ line. if line == "" then none else some line;
  value = λ j key default. if key == "cmd" then some j else some "run";
  dump = λ v. some "a record";
  path_string = λ p. some "a path";
}

abbrev files : Files ℕ ℕ
files = record {
  create_directories = λ w. (true, w);
  gz_open = λ w p. (true, w + 1);
  gz_write = λ w p r. (true, w);
  gz_close = λ w p. w;
  remove = λ w p. w;
  copy_file = λ w p q. (true, w);
  session_path = λ stamp. stamp;
  pinned_path = λ name stamp. stamp;
}

abbrev recording : RollingRecorder ℕ ℕ
recording = record {
  rolling_minutes = 5;
  running = true;
  gz = true;
  current_path = 7;
  window_start = 0;
  rotated = [];
  world = 0;
}

abbrev globals : Globals ℕ ℕ
globals = record { recorder = some recording; submitted = "hello" ∷ [] }

abbrev no_bytes : String → Text
no_bytes s = []

pinned_at : (pin_current files recording [] 4 5 6).0 ≡ some 5
unfolding pin_current
pinned_at = refl

abbrev format : String → List (Arg ℕ) → String
format f args = f

save_session-saved_example :
    ((handle_command commands no_bytes files globals 9 4 5 6 "save_session").submitted
      ≡ ("hello" ∷ []) ++ "a record" ∷ [])
    × (ingest view format empty_store (same (ack 9 "a path")) 3
        ≡ done (record empty_store {
          total_records = (0 + 1) % 2 ^ 64;
          last_saved_path = some "a path";
          last_saved_at = 3;
        }))
save_session-saved_example =
    save_session-saved commands no_bytes files view same (λ n. n) (λ n. n) view-Decodes format
      globals 9 4 5 6 "save_session" "save_session" "run" "a path" "a record" recording 5
      empty_store 3 refl refl refl refl pinned_at refl refl refl

abbrev keep_engine : CpuBreakdownConfig → ℕ → ℕ
keep_engine cfg n = n + 1

abbrev started : ℕ → Bool × ℕ
started r = (true, r)

abbrev config : PluginConfig ℕ
config = default_config (λ n. n)

-- a save before its module, the data, and twice the game's binary
abbrev messages : List Message
messages = save_game none ∷ data_loaded ∷ post_load ∷ post_load ∷ []

load-Running_all_example :
    let p = on_messages keep_engine started (load keep_engine started config 1 0) messages in
    Running true true p
    × (p.config ≡ config)
    × (p.recorder ≡ (if config.recorder.enabled then some 1 else none))
    × (p.attached ≡ (config.recorder.enabled && true))
    × (p.crash_handler ≡ config.crash_handler)
    × (p.heartbeat_running ≡ true)
    × (p.hooks
        ≡ repeat
            (installs (config.cpu_breakdown.enabled) messages)
            (keep_engine (config.cpu_breakdown))
            0)
load-Running_all_example = load-Running_all keep_engine started config 1 0 messages
