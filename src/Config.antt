-- ===== src/Config.antt =====
-- plugin/src/config/plugin_config.h and plugin_config.cpp: the configuration and how it is read.
-- `J` is a JSON value, `D` a `double`; the literals of the defaults are `num` of their value in
-- thousandths. `std::int` values are numbers as far as they are not negative.
pub mod Parse
pub mod Settings
mod Tests
use skygraph.Prelude.{ℕ, ◌*◌, String, Bool, true, false, Option, none, some}

pub record SamplerToggle (D : Type 0) : Type 0 where
  pub enabled : Bool
  pub rate_hz : D

pub record HookIds : Type 0 where
  pub id_se : ℕ
  pub id_ae : ℕ
  pub offset : ℕ

pub record CpuBreakdownConfig : Type 0 where
  pub enabled : Bool
  pub havok_hook : Bool
  pub ai_hook : Bool
  pub render_submit_hook : Bool
  pub main_loop_hook : Bool
  pub havok_hook_ids : HookIds
  pub ai_hook_ids : HookIds
  pub render_submit_hook_ids : HookIds

pub record PapyrusConfig (D : Type 0) : Type 0 where
  pub enabled : Bool
  pub snapshot_hz : D
  pub top_n : ℕ
  pub vm_hook : Bool
  pub vm_hook_ids : HookIds

pub record StreamingConfig (D : Type 0) : Type 0 where
  pub enabled : Bool
  pub hitch_threshold_ms : D

pub record StutterFlaggerConfig (D : Type 0) : Type 0 where
  pub enabled : Bool
  pub p50_window_frames : ℕ
  pub stutter_ratio : D
  pub min_frame_ms : D

pub record RecorderConfig : Type 0 where
  pub enabled : Bool
  pub rolling_minutes : ℕ
  pub directory : String

pub record LogConfig : Type 0 where
  pub level : String
  pub console : Bool

pub record TransportConfig : Type 0 where
  pub pipe_name : String
  pub writer_queue_capacity : ℕ

pub record PluginConfig (D : Type 0) : Type 0 where
  pub log : LogConfig
  pub transport : TransportConfig
  pub frame : SamplerToggle D
  pub cpu_breakdown : CpuBreakdownConfig
  pub memory : SamplerToggle D
  pub memory_pressure : SamplerToggle D
  pub papyrus : PapyrusConfig D
  pub state : SamplerToggle D
  pub events : SamplerToggle D
  pub streaming : StreamingConfig D
  pub render_gpu_timestamps : SamplerToggle D
  pub stutter_flagger : StutterFlaggerConfig D
  pub recorder : RecorderConfig
  pub crash_handler : Bool

abbrev pub no_ids : HookIds
no_ids = record { id_se = 0; id_ae = 0; offset = 0 }

-- The initializers of the members.
abbrev pub default_config : {D : Type 0} → (ℕ → D) → PluginConfig D
default_config num = record {
  log = record { level = "info"; console = false };
  transport = record { pipe_name = "\\\\.\\pipe\\skygraph"; writer_queue_capacity = 16384 };
  frame = record { enabled = true; rate_hz = num 60000 };
  cpu_breakdown = record {
    enabled = true;
    havok_hook = true;
    ai_hook = true;
    render_submit_hook = true;
    main_loop_hook = true;
    havok_hook_ids = no_ids;
    ai_hook_ids = no_ids;
    render_submit_hook_ids = no_ids;
  };
  memory = record { enabled = true; rate_hz = num 1000 };
  memory_pressure = record { enabled = true; rate_hz = num 1000 };
  papyrus = record {
    enabled = true;
    snapshot_hz = num 10000;
    top_n = 16;
    vm_hook = true;
    vm_hook_ids = no_ids;
  };
  state = record { enabled = true; rate_hz = num 2000 };
  events = record { enabled = true; rate_hz = num 0 };
  streaming = record { enabled = false; hitch_threshold_ms = num 5000 };
  render_gpu_timestamps = record { enabled = false; rate_hz = num 60000 };
  stutter_flagger = record {
    enabled = true;
    p50_window_frames = 240;
    stutter_ratio = num 2500;
    min_frame_ms = num 5000;
  };
  recorder = record { enabled = true; rolling_minutes = 5; directory = "skygraph" };
  crash_handler = true;
}
