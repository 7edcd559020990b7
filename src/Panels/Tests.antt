-- ===== src/Panels/Tests.antt =====
-- The theorems on the panels at concrete rows; a float and a double are numbers.
use text.Mathlib.Text.{◌==◌}
use mathlib.Core.List.Permᴰ
use skygraph.Prelude.{
  ℕ, ◌+◌, ◌*◌, ◌/◌, ◌≤◌, ◌≡◌, refl, String, true, false, Option, some, List, [], ◌∷◌, ltb,
  if◌then◌else◌, length, arith,
}
use skygraph.Store.{HotScript, FrameSample}
use skygraph.Panels.Pie.{max_slices, pie_slices, time_of, shown, pie_slices-shown}
use skygraph.Panels.Guilty.{Snapshot, subsystems, guiltiest}
use skygraph.Store.{StutterEntry}
use skygraph.Plugin.Records.{Value}
use skygraph.Plugin.Samples.{same, view, empty_store}
use skygraph.Source.{fresh}
use skygraph.Client.Replay.{FileSource}
use skygraph.App.{replaying}
use skygraph.Panels.StatusBar.{
  Window, Choice, nothing, open_session, connect_live, Input, StatusState,
}
use skygraph.Panels.Replaced.{Frame, draw_frames, defined, defined-draw_frames}
use skygraph.Frame.Stutter.{StutterRecord}
use skygraph.Frame.Json.{snapshot_json}
use skygraph.Panels.Charts.{Reals, compute_pacing}

abbrev row : String → ℕ → HotScript ℕ ℕ
row name us = record { name = name; us_window = us; calls_per_sec = 0; pct_frame = 0 }

abbrev rows : List (HotScript ℕ ℕ)
rows =
    row "a" 5
    ∷ row "b" 0
    ∷ row "c" 3
    ∷ row "d" 1
    ∷ row "e" 1
    ∷ row "f" 1
    ∷ row "g" 1
    ∷ row "h" 1
    ∷ row "i" 1
    ∷ row "j" 1
    ∷ row "k" 1
    ∷ row "l" 1
    ∷ []

abbrev as_is : ℕ → List (HotScript ℕ ℕ) → List (HotScript ℕ ℕ)
as_is n rows = rows

pie_slices-shown_example :
    (shown (pie_slices as_is rows) ≡ time_of rows)
    × (length (pie_slices as_is rows) ≤ max_slices + 1)
pie_slices-shown_example = pie_slices-shown as_is rows (λ n. Permᴰ.refl rows) (omega arith)

-- A breakdown is the time of its AI.
abbrev ai_only : ℕ → String → Option ℕ
ai_only ms name = if name == "ai_ms" then some ms else some 0

abbrev snapshot : Snapshot ℕ ℕ
snapshot = record {
  is_object = λ j. true;
  find = λ j key. some j;
  value_of = ai_only;
  less = ltb;
  zero_float = 0;
}

guilty_run : guiltiest snapshot 7 0 "?" subsystems ≡ some (7, "ai")
unfolding guiltiest
guilty_run = refl

abbrev reals : Reals ℕ ℕ
reals = record {
  positive = ltb 0;
  widen = λ n. n;
  zero = 0;
  add = ◌+◌;
  mean_fps = λ sum n. sum;
  fps = λ n. n;
  scaled = λ q n. q * n / 1000;
}

abbrev frames : List (FrameSample ℕ ℕ)
frames =
    record { t = 1; dt_ms = 16; fps = 60; cpu_ms = 9; gpu_ms = 0 }
    ∷ record { t = 2; dt_ms = 0; fps = 0; cpu_ms = 0; gpu_ms = 0 }
    ∷ record { t = 3; dt_ms = 40; fps = 25; cpu_ms = 30; gpu_ms = 0 }
    ∷ []

abbrev unsorted : List ℕ → List ℕ
unsorted dt = dt

pacing_run :
    compute_pacing reals unsorted 990 999 frames
    ≡ some (record { mean_fps = 56; p99_low_fps = 16; p999_low_fps = 16 })
unfolding compute_pacing
pacing_run = refl

abbrev stutter_sent : StutterRecord ℕ
stutter_sent = record {
  frame_ms = 40;
  p50_ms = 16;
  ratio = 2;
  breakdown = record {
    papyrus_ms = 4;
    havok_ms = 0;
    ai_ms = 0;
    render_submit_ms = 9;
    streaming_ms = 0;
  };
  other_ms = 17;
  cpu_ms = 30;
  cell = "Hall";
  in_flight_cell_load = "";
  top_papyrus = record { name = "Door"; total_us = 5; calls_in_window = 1 } ∷ [];
  actor_counts = (4, 0, 2, 1);
  vram_headroom_mb = 3;
  page_faults_per_sec = 8;
  streaming_queue_depth = 6;
}

abbrev stutter_entry : StutterEntry (Value ℕ) ℕ ℕ
stutter_entry = record {
  t = 9;
  frame_ms = 40;
  p50_ms = 16;
  ratio = 2;
  snapshot = same (snapshot_json (λ n. n) stutter_sent);
}

-- the scripts and the stutters by their second column, the largest first
abbrev file : FileSource (Value ℕ)
file = record { path = 1 ∷ []; running = true; source = fresh }

abbrev window : Window ℕ (Value ℕ) ℕ ℕ
window = record {
  app = record {
    running = true;
    pipe_name = "skygraph";
    source = some (replaying file);
    store = empty_store;
  };
  made = 1;
}

abbrev pressed : Choice → Input
pressed c = record {
  choice = c;
  save_session_pressed = true;
  shown = true;
  typed = "boss fight";
  save_pressed = true;
  open_folder_pressed = false;
}

abbrev frame_with : Choice → Frame ℕ (Value ℕ) ℕ ℕ
frame_with c = record { progress = λ s. s; store = empty_store; input = pressed c; now = 7 }

abbrev status : StatusState
status = record { save_name = ""; save_popup_open = false }

-- a frame without a choice, a cancelled dialog, and the live pipe
defined-draw_frames_example :
    defined (
      draw_frames view 1000 window status
        (frame_with nothing ∷ frame_with (open_session []) ∷ frame_with connect_live ∷ []))
    ≡ false
defined-draw_frames_example =
    defined-draw_frames view 1000 window status
      (frame_with nothing ∷ frame_with (open_session []) ∷ frame_with connect_live ∷ [])
      (replaying file, refl)
