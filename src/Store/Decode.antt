-- ===== src/Store/Decode.antt =====
-- The records that `TelemetryStore::Ingest` (viewer/src/state/telemetry_store.cpp) makes of what it
-- receives. `format` is `fmt::format`.
use text.Mathlib.Text.{◌==◌}
use skygraph.Prelude.{ℕ, String, ◌>>=◌, Option, none, some, List, [], ◌∷◌, if◌then◌else◌}
use skygraph.Store.{
  FrameSample, BreakdownSample, MemorySample, PressureSample, StateSnapshot, PapyrusSnapshot,
  EventEntry, StutterEntry, ConnectionInfo,
}
use skygraph.Store.Json.{Json, get, get_t, string_of, u32_of, float_of}

-- An argument of a format.
pub data Arg (F : Type 0) : Type 0 where
  str : String → Arg F
  number : F → Arg F

-- The member of an object, or the default on anything else.
abbrev pub member {ℓ} : {J : Type 0} {T : Type ℓ} → Option J → (J → T) → T → T
member none f default = default
member (some j) f default = f j

module _ {J F D : Type 0} (json : Json J F D) (format : String → List (Arg F) → String) where
  unfoldable pub connection_of : J → ℕ → ConnectionInfo
  unfolding get
  connection_of r now = record {
    product_version = member (json.find r "product") (λ p. string_of json p "version") "";
    game_runtime = string_of json r "game_runtime";
    protocol_major = member (json.find r "protocol") (λ p. u32_of json p "major") 0;
    protocol_minor = member (json.find r "protocol") (λ p. u32_of json p "minor") 0;
    first_seen = now;
  }

  unfoldable pub frame_of : J → FrameSample F D
  unfolding get get_t
  frame_of r = record {
    t = get_t json r;
    dt_ms = float_of json r "dt_ms";
    fps = float_of json r "fps";
    cpu_ms = float_of json r "cpu_frame_ms";
    gpu_ms = float_of json r "gpu_frame_ms";
  }

  unfoldable pub breakdown_of : J → BreakdownSample F D
  unfolding get get_t
  breakdown_of r = record {
    t = get_t json r;
    papyrus_ms = float_of json r "papyrus_ms";
    havok_ms = float_of json r "havok_ms";
    ai_ms = float_of json r "ai_ms";
    render_submit_ms = float_of json r "render_submit_ms";
    streaming_ms = float_of json r "streaming_ms";
    other_ms = float_of json r "other_ms";
  }

  unfoldable pub memory_of : J → MemorySample F D
  unfolding get get_t
  memory_of r = record {
    t = get_t json r;
    working_set_mb = float_of json r "working_set_mb";
    private_mb = float_of json r "private_mb";
    vram_used_mb = float_of json r "vram_used_mb";
    vram_budget_mb = float_of json r "vram_budget_mb";
  }

  unfoldable pub pressure_of : J → PressureSample F D
  unfolding get get_t
  pressure_of r = record {
    t = get_t json r;
    page_faults_per_sec = float_of json r "page_faults_per_sec";
    commit_charge_mb = float_of json r "commit_charge_mb";
    commit_limit_mb = float_of json r "commit_limit_mb";
  }

  abbrev pub origin : F × F × F
  origin = (json.zero_float, json.zero_float, json.zero_float)

  -- The elements of `player_pos`, converted outside any `try` if there are three: `none` when a
  -- conversion throws.
  unfoldable pub position_in : List J → Option (F × F × F)
  position_in [] = some origin
  position_in (x ∷ []) = some origin
  position_in (x ∷ (y ∷ [])) = some origin
  position_in (x ∷ (y ∷ (z ∷ []))) = do
    a ← json.get_float x
    b ← json.get_float y
    c ← json.get_float z
    some (a, b, c)
  position_in (x ∷ (y ∷ (z ∷ (w ∷ js)))) = some origin

  unfoldable pub position_of : J → Option (F × F × F)
  unfolding position_in
  position_of r =
      member (json.find r "player_pos") (λ p. member (json.elements p) position_in (some origin))
        (some origin)

  unfoldable pub snapshot_of : J → F × F × F → StateSnapshot F D
  unfolding get get_t
  snapshot_of r pos =
      let counts = json.find r "actor_counts" in
      record {
        t = get_t json r;
        cell = string_of json r "cell";
        worldspace = string_of json r "worldspace";
        player_pos = pos;
        actors_high = member counts (λ c. u32_of json c "high") 0;
        actors_mid_high = member counts (λ c. u32_of json c "mid_high") 0;
        actors_mid_low = member counts (λ c. u32_of json c "mid_low") 0;
        actors_low = member counts (λ c. u32_of json c "low") 0;
        loaded_refs = u32_of json r "loaded_refs";
      }

  unfoldable pub papyrus_of : J → PapyrusSnapshot F D
  unfolding get get_t
  papyrus_of r = record {
    t = get_t json r;
    active = u32_of json r "active";
    suspended = u32_of json r "suspended";
    latent = u32_of json r "latent";
  }

  unfoldable pub stutter_of : J → StutterEntry J F D
  unfolding get get_t
  stutter_of r = record {
    t = get_t json r;
    frame_ms = float_of json r "frame_ms";
    p50_ms = float_of json r "p50_ms";
    ratio = float_of json r "ratio";
    snapshot = member (json.find r "snapshot") (λ s. s) json.object;
  }

  unfoldable pub summary_of : J → String → String
  unfolding get
  summary_of r type =
      if type == "event.cell_attach"
      then format "attach {} ({:.1f} ms)"
          (str (string_of json r "cell") ∷ number (float_of json r "duration_ms") ∷ [])
      else if type == "event.cell_detach"
      then format "detach {} ({:.1f} ms)"
          (str (string_of json r "cell") ∷ number (float_of json r "duration_ms") ∷ [])
      else if type == "event.save"
      then format "save '{}'" (str (string_of json r "name") ∷ [])
      else if type == "event.autosave"
      then "autosave"
      else if type == "event.mod_event"
      then format "mod_event '{}'" (str (string_of json r "name") ∷ [])
      else if type == "event.streaming_hitch"
      then format "streaming hitch {:.1f} ms: {}"
          (number (float_of json r "duration_ms") ∷ str (string_of json r "path") ∷ [])
      else if type == "event.crash"
      then format "CRASH {} @ {}"
          (str (string_of json r "code") ∷ str (string_of json r "module") ∷ [])
      else type

  unfoldable pub event_of : J → String → EventEntry J D
  unfolding get_t summary_of
  event_of r type = record { t = get_t json r; type = type; summary = summary_of r type; raw = r }
