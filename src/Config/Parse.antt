-- ===== src/Config/Parse.antt =====
-- `Read`, `ParseJson` and `LoadOrDefault` of plugin/src/config/plugin_config.cpp.
use skygraph.Prelude.{ℕ, String, Bool, true, false, Option, none, some, if◌then◌else◌}
use skygraph.Config.{
  SamplerToggle, HookIds, CpuBreakdownConfig, PapyrusConfig, StreamingConfig, StutterFlaggerConfig,
  RecorderConfig, LogConfig, TransportConfig, PluginConfig, default_config,
}

-- What is used of nlohmann/json; a conversion that throws is `none`.
pub record ConfigJson (J D : Type 0) : Type 0 where
  pub find : J → String → Option J
  pub is_null : J → Bool
  pub is_object : J → Bool
  pub get_bool : J → Option Bool
  pub get_int : J → Option ℕ
  pub get_u64 : J → Option ℕ
  pub get_double : J → Option D
  pub get_string : J → Option String
  pub num : ℕ → D

module _ {J D : Type 0} (json : ConfigJson J D) where
  -- The new value of the variable that `Read` writes.
  unfoldable pub read {ℓ} : {T : Type ℓ} → (J → Option T) → J → String → T → T
  read convert obj key out = elim (json.find obj key) [
    | none ↦ out
    | some v ↦ elim (json.is_null v) [
      | true ↦ out
      | false ↦ elim (convert v) [ none ↦ out | some x ↦ x ]
    ]
  ]

  -- `if (auto it = obj.find(key); it != obj.end())`, with what the body makes of a value.
  unfoldable pub at {ℓ} : {C : Type ℓ} → J → String → (J → C → C) → C → C
  at obj key body c = elim (json.find obj key) [ none ↦ c | some o ↦ body o c ]

  abbrev pub bool : J → String → Bool → Bool
  bool o = read json.get_bool o

  abbrev pub int : J → String → ℕ → ℕ
  int o = read json.get_int o

  abbrev pub double : J → String → D → D
  double o = read json.get_double o

  abbrev pub toggle_of : J → SamplerToggle D → SamplerToggle D
  toggle_of o t = record t {
    enabled = bool o "enabled" t.enabled;
    rate_hz = double o "rate_hz" t.rate_hz;
  }

  unfoldable pub read_sampler_toggle : J → String → SamplerToggle D → SamplerToggle D
  unfolding read at
  read_sampler_toggle obj key t = at obj key toggle_of t

  abbrev pub ids_of : J → HookIds → HookIds
  ids_of o ids =
      if json.is_object o
      then record {
        id_se = read json.get_u64 o "id_se" ids.id_se;
        id_ae = read json.get_u64 o "id_ae" ids.id_ae;
        offset = read json.get_u64 o "offset" ids.offset;
      }
      else ids

  unfoldable pub read_hook_ids : J → String → HookIds → HookIds
  unfolding read at
  read_hook_ids obj key ids = at obj key ids_of ids

  unfoldable pub read_log : J → LogConfig → LogConfig
  unfolding read
  read_log o c = record {
    level = read json.get_string o "level" c.level;
    console = bool o "console" c.console;
  }

  unfoldable pub read_transport : J → TransportConfig → TransportConfig
  unfolding read
  read_transport o c = record {
    pipe_name = read json.get_string o "pipe_name" c.pipe_name;
    writer_queue_capacity = int o "writer_queue_capacity" c.writer_queue_capacity;
  }

  unfoldable pub read_cpu_breakdown : J → CpuBreakdownConfig → CpuBreakdownConfig
  unfolding read read_hook_ids
  read_cpu_breakdown o c = record {
    enabled = bool o "enabled" c.enabled;
    havok_hook = bool o "havok_hook" c.havok_hook;
    ai_hook = bool o "ai_hook" c.ai_hook;
    render_submit_hook = bool o "render_submit_hook" c.render_submit_hook;
    main_loop_hook = bool o "main_loop_hook" c.main_loop_hook;
    havok_hook_ids = read_hook_ids o "havok_hook_ids" c.havok_hook_ids;
    ai_hook_ids = read_hook_ids o "ai_hook_ids" c.ai_hook_ids;
    render_submit_hook_ids = read_hook_ids o "render_submit_hook_ids" c.render_submit_hook_ids;
  }

  unfoldable pub read_papyrus : J → PapyrusConfig D → PapyrusConfig D
  unfolding read read_hook_ids
  read_papyrus o c = record {
    enabled = bool o "enabled" c.enabled;
    snapshot_hz = double o "snapshot_hz" c.snapshot_hz;
    top_n = int o "top_n" c.top_n;
    vm_hook = bool o "vm_hook" c.vm_hook;
    vm_hook_ids = read_hook_ids o "vm_hook_ids" c.vm_hook_ids;
  }

  unfoldable pub read_streaming : J → StreamingConfig D → StreamingConfig D
  unfolding read
  read_streaming o c = record {
    enabled = bool o "enabled" c.enabled;
    hitch_threshold_ms = double o "hitch_threshold_ms" c.hitch_threshold_ms;
  }

  unfoldable pub read_stutter_flagger : J → StutterFlaggerConfig D → StutterFlaggerConfig D
  unfolding read
  read_stutter_flagger o c = record {
    enabled = bool o "enabled" c.enabled;
    p50_window_frames = int o "p50_window_frames" c.p50_window_frames;
    stutter_ratio = double o "stutter_ratio" c.stutter_ratio;
    min_frame_ms = double o "min_frame_ms" c.min_frame_ms;
  }

  unfoldable pub read_recorder : J → RecorderConfig → RecorderConfig
  unfolding read
  read_recorder o c = record {
    enabled = bool o "enabled" c.enabled;
    rolling_minutes = int o "rolling_minutes" c.rolling_minutes;
    directory = read json.get_string o "directory" c.directory;
  }

  -- The block of "samplers".
  unfoldable pub read_samplers : J → PluginConfig D → PluginConfig D
  unfolding read_sampler_toggle read_cpu_breakdown read_papyrus read_streaming at
  read_samplers s cfg0 =
      let cfg1 : PluginConfig D = record cfg0 {
        frame = read_sampler_toggle s "frame" cfg0.frame;
        memory = read_sampler_toggle s "memory" cfg0.memory;
        memory_pressure = read_sampler_toggle s "memory_pressure" cfg0.memory_pressure;
        state = read_sampler_toggle s "state" cfg0.state;
        events = read_sampler_toggle s "events" cfg0.events;
        render_gpu_timestamps =
            read_sampler_toggle s "render_gpu_timestamps" cfg0.render_gpu_timestamps;
      } in
      let cfg2 : PluginConfig D =
        at s "cpu_breakdown"
          (λ o c. record c { cpu_breakdown = read_cpu_breakdown o c.cpu_breakdown }) cfg1 in
      let cfg3 : PluginConfig D =
        at s "papyrus" (λ o c. record c { papyrus = read_papyrus o c.papyrus }) cfg2 in
      at s "streaming" (λ o c. record c { streaming = read_streaming o c.streaming }) cfg3

  unfoldable pub parse_json : J → PluginConfig D
  unfolding read_log read_transport read_samplers read_stutter_flagger read_recorder at
  parse_json root =
      let cfg1 : PluginConfig D =
        at root "log" (λ o c. record c { log = read_log o c.log }) (default_config json.num) in
      let cfg2 : PluginConfig D =
        at root "transport" (λ o c. record c { transport = read_transport o c.transport }) cfg1 in
      let cfg3 : PluginConfig D = at root "samplers" read_samplers cfg2 in
      let cfg4 : PluginConfig D =
        at root "stutter_flagger"
          (λ o c. record c { stutter_flagger = read_stutter_flagger o c.stutter_flagger }) cfg3 in
      let cfg5 : PluginConfig D =
        at root "recorder" (λ o c. record c { recorder = read_recorder o c.recorder }) cfg4 in
      at root "crash_handler" (λ o c. record c { crash_handler = bool o "enabled" c.crash_handler })
        cfg5

  -- What the file holds: nothing there, no JSON, or a value.
  unfoldable pub load_or_default : Option (Option J) → PluginConfig D
  unfolding parse_json
  load_or_default none = default_config json.num
  load_or_default (some none) = default_config json.num
  load_or_default (some (some root)) = parse_json root
