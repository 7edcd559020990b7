-- ===== src/Plugin/Startup.antt =====
-- `SKSEPluginLoad` and `OnSkseMessage` of plugin/src/plugin.cpp: which parts are made and started,
-- and when. Hooks/Recorder/Writer have their own files; here `install_hooks` and `start_recorder` are
-- those operations on what they change.
use skygraph.Prelude.{
  String, Bool, true, false, ◌&&◌, ◌||◌, Option, none, some, List, [], ◌∷◌, ◌++◌, if◌then◌else◌,
}
use skygraph.Config.{PluginConfig, CpuBreakdownConfig}

-- A `unique_ptr` to a sampler, and whether `Start` was called.
pub data Sampler : Type 0 where
  absent created started : Sampler

pub data Message : Type 0 where
  null_message post_load data_loaded post_load_game pre_load_game other : Message
  save_game : Option String → Message

pub record Plugin (D R E : Type 0) : Type 0 where
  pub config : PluginConfig D
  -- `g_pipe` and `g_writer` are made once and started at load.
  pub transport_running : Bool
  pub recorder : Option R
  -- is the recorder attached to the writer?
  pub attached : Bool
  pub frame : Sampler
  pub memory : Sampler
  pub gpu : Sampler
  pub breakdown : Sampler
  pub papyrus : Sampler
  pub state : Sampler
  pub streaming : Sampler
  pub hooks : E
  -- `event_sources::InstallAll` was called, so that its writer is set.
  pub events_installed : Bool
  -- the names of the event.save records
  pub saves : List String
  pub heartbeat_running : Bool
  pub crash_handler : Bool

-- `Start` of a sampler that may be there.
unfoldable pub start_if : Bool → Sampler → Sampler
start_if false s = s
start_if true absent = absent
start_if true created = started
start_if true started = started

module _ {D R E : Type 0} (install_hooks : CpuBreakdownConfig → E → E)
    (start_recorder : R → Bool × R) where
  -- What the listener does after the game has mapped its binary.
  unfoldable pub on_post_load : Plugin D R E → Plugin D R E
  unfolding start_if
  on_post_load p = record p {
    frame = start_if (p.config.frame.enabled) (p.frame);
    hooks =
        if p.config.cpu_breakdown.enabled
        then install_hooks (p.config.cpu_breakdown) (p.hooks)
        else p.hooks;
    papyrus = if p.config.papyrus.enabled then started else p.papyrus;
    streaming = if p.config.streaming.enabled then started else p.streaming;
    gpu = start_if (p.config.render_gpu_timestamps.enabled) (p.gpu);
  }

  unfoldable pub on_data_loaded : Plugin D R E → Plugin D R E
  on_data_loaded p = record p {
    events_installed =
        if p.config.events.enabled && p.transport_running then true else p.events_installed;
    state = if p.config.state.enabled && p.transport_running then started else p.state;
  }

  -- `EmitSaveEvent`; a null name is empty.
  unfoldable pub emit_save : Plugin D R E → Option String → Plugin D R E
  emit_save p none = if p.events_installed then record p { saves = p.saves ++ "" ∷ [] } else p
  emit_save p (some name) =
      if p.events_installed then record p { saves = p.saves ++ name ∷ [] } else p

  unfoldable pub on_skse_message : Plugin D R E → Message → Plugin D R E
  unfolding on_post_load on_data_loaded emit_save
  on_skse_message p null_message = p
  on_skse_message p post_load = on_post_load p
  on_skse_message p data_loaded = on_data_loaded p
  on_skse_message p (save_game name) =
      let p' = emit_save p name in if p.config.events.enabled then p' else p
  on_skse_message p post_load_game = p
  on_skse_message p pre_load_game = p
  on_skse_message p other = p

  unfoldable pub on_messages : Plugin D R E → List Message → Plugin D R E
  unfolding on_skse_message
  on_messages p [] = p
  on_messages p (m ∷ ms) = on_messages (on_skse_message p m) ms

  -- `SKSEPluginLoad`, with the configuration that was read and a recorder that is not started.
  unfoldable pub load : PluginConfig D → R → E → Plugin D R E
  load config r hooks =
      let (ok, r') = start_recorder r in
      record {
        config = config;
        transport_running = true;
        recorder = if config.recorder.enabled then some r' else none;
        attached = config.recorder.enabled && ok;
        frame = if config.frame.enabled then created else absent;
        memory =
            if config.memory.enabled || config.memory_pressure.enabled then started else absent;
        gpu = if config.render_gpu_timestamps.enabled then created else absent;
        breakdown = if config.cpu_breakdown.enabled then started else absent;
        papyrus = absent;
        state = absent;
        streaming = absent;
        hooks = hooks;
        events_installed = false;
        saves = [];
        heartbeat_running = true;
        crash_handler = config.crash_handler;
      }
