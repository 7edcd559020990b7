-- ===== src/Store.antt =====
-- viewer/src/state/telemetry_store.h: what the viewer keeps of a session. `J` is a JSON value, `F` a
-- `float`, `D` a `double`; times of the steady clock are numbers.
pub mod Json
pub mod Rings
pub mod Scripts
pub mod Decode
pub mod Ingest
pub mod Bounds
pub mod Frames
pub mod Errors
mod Tests
use text.Mathlib.Text.{◌==◌}
use skygraph.Prelude.{ℕ, ◌+◌, ◌*◌, String, Bool, Option, none, some, List, [], ◌∷◌, if◌then◌else◌}

abbrev pub frame_ring : ℕ
frame_ring = 60 * 60

abbrev pub breakdown_ring : ℕ
breakdown_ring = 60 * 60

abbrev pub low_rate_ring : ℕ
low_rate_ring = 600

abbrev pub event_log_cap : ℕ
event_log_cap = 4096

module _ (F D : Type 0) where
  pub record FrameSample : Type 0 where
    pub t : D
    pub dt_ms : F
    pub fps : F
    pub cpu_ms : F
    pub gpu_ms : F

  pub record BreakdownSample : Type 0 where
    pub t : D
    pub papyrus_ms : F
    pub havok_ms : F
    pub ai_ms : F
    pub render_submit_ms : F
    pub streaming_ms : F
    pub other_ms : F

  pub record MemorySample : Type 0 where
    pub t : D
    pub working_set_mb : F
    pub private_mb : F
    pub vram_used_mb : F
    pub vram_budget_mb : F

  pub record PressureSample : Type 0 where
    pub t : D
    pub page_faults_per_sec : F
    pub commit_charge_mb : F
    pub commit_limit_mb : F

  pub record StateSnapshot : Type 0 where
    pub t : D
    pub cell : String
    pub worldspace : String
    pub player_pos : F × F × F
    pub actors_high : ℕ
    pub actors_mid_high : ℕ
    pub actors_mid_low : ℕ
    pub actors_low : ℕ
    pub loaded_refs : ℕ

  pub record PapyrusSnapshot : Type 0 where
    pub t : D
    pub active : ℕ
    pub suspended : ℕ
    pub latent : ℕ

  pub record HotScript : Type 0 where
    pub name : String
    pub us_window : ℕ
    pub calls_per_sec : F
    pub pct_frame : F

pub record EventEntry (J D : Type 0) : Type 0 where
  pub t : D
  pub type : String
  pub summary : String
  pub raw : J

pub record StutterEntry (J F D : Type 0) : Type 0 where
  pub t : D
  pub frame_ms : F
  pub p50_ms : F
  pub ratio : F
  pub snapshot : J

pub record ConnectionInfo : Type 0 where
  pub product_version : String
  pub game_runtime : String
  pub protocol_major : ℕ
  pub protocol_minor : ℕ
  pub first_seen : ℕ

pub record TelemetryStore (J F D : Type 0) : Type 0 where
  pub last_frame : Option (FrameSample F D)
  pub last_breakdown : Option (BreakdownSample F D)
  pub last_memory : Option (MemorySample F D)
  pub last_pressure : Option (PressureSample F D)
  pub last_state : Option (StateSnapshot F D)
  pub last_papyrus : Option (PapyrusSnapshot F D)
  pub connection : Option ConnectionInfo
  pub hot_scripts : List (HotScript F D)
  pub load_order : List String
  pub papyrus_cumulative_us : List (String × D)
  pub frames : List (FrameSample F D)
  pub breakdowns : List (BreakdownSample F D)
  pub memories : List (MemorySample F D)
  pub pressures : List (PressureSample F D)
  pub events : List (EventEntry J D)
  pub stutters : List (StutterEntry J F D)
  pub last_heartbeat_t : D
  pub total_records : ℕ
  pub total_heartbeats : ℕ
  pub last_saved_path : Option String
  pub last_saved_at : ℕ
