-- ===== src/Config/Settings.antt =====
-- `ParseJson` of plugin/src/config/plugin_config.cpp, section by section.
use skygraph.Prelude.{◌≡◌, refl, sym, ap, ◌∙◌, String, Option-cases, inl, inr}
use skygraph.Config.{PluginConfig, default_config}
use skygraph.Config.Parse.{
  ConfigJson, at, bool, read_sampler_toggle, read_log, read_transport, read_cpu_breakdown,
  read_papyrus, read_streaming, read_stutter_flagger, read_recorder, read_samplers, parse_json,
}

module _ {J D : Type 0} (json : ConfigJson J D) where
  -- A body that changes one part of the configuration.
  at-part :
      {C S : Type 0} (obj : J) (key : String) (c : C) (get : C → S) (put : C → S → C)
      (f : J → S → S)
      → put c (get c) ≡ c
      → at json obj key (λ o c. put c (f o (get c))) c ≡ put c (at json obj key f (get c))
  unfolding at
  at-part obj key c get put f h = elim (Option-cases (json.find obj key)) [
    | inl e ↦ rw (e, at) (sym h)
    | inr (o, e) ↦ rw (e, at) refl
  ]

  -- A member of "samplers".
  abbrev pub sampler {ℓ} : {C : Type ℓ} → J → (J → C → C) → C → C
  sampler root = at json root "samplers"

  samplers_lem :
      (s : J) (c : PluginConfig D)
      → read_samplers json s c ≡ record c {
        frame = read_sampler_toggle json s "frame" c.frame;
        memory = read_sampler_toggle json s "memory" c.memory;
        memory_pressure = read_sampler_toggle json s "memory_pressure" c.memory_pressure;
        state = read_sampler_toggle json s "state" c.state;
        events = read_sampler_toggle json s "events" c.events;
        render_gpu_timestamps =
            read_sampler_toggle json s "render_gpu_timestamps" c.render_gpu_timestamps;
        cpu_breakdown = at json s "cpu_breakdown" (read_cpu_breakdown json) c.cpu_breakdown;
        papyrus = at json s "papyrus" (read_papyrus json) c.papyrus;
        streaming = at json s "streaming" (read_streaming json) c.streaming;
      }
  unfolding read_samplers
  samplers_lem s c =
      let breakdown = λ (c : PluginConfig D).
        at-part s "cpu_breakdown" c (λ c. c.cpu_breakdown) (λ c p. record c { cpu_breakdown = p })
          (read_cpu_breakdown json) refl in
      let papyrus = λ (c : PluginConfig D).
        at-part s "papyrus" c (λ c. c.papyrus) (λ c p. record c { papyrus = p }) (read_papyrus json)
          refl in
      let streaming = λ (c : PluginConfig D).
        at-part s "streaming" c (λ c. c.streaming) (λ c p. record c { streaming = p })
          (read_streaming json) refl in
      ap
        (λ c.
          at json s "streaming" (λ o c. record c { streaming = read_streaming json o c.streaming })
            (at json s "papyrus" (λ o c. record c { papyrus = read_papyrus json o c.papyrus }) c))
        (breakdown _)
      ∙ ap
          (at json s "streaming"
            (λ o c. record c { streaming = read_streaming json o c.streaming }))
          (papyrus _)
      ∙ streaming _

  all_samplers :
      (root : J) (c : PluginConfig D)
      → at json root "samplers" (read_samplers json) c ≡ record c {
        frame = sampler root (λ s. read_sampler_toggle json s "frame") c.frame;
        memory = sampler root (λ s. read_sampler_toggle json s "memory") c.memory;
        memory_pressure =
            sampler root (λ s. read_sampler_toggle json s "memory_pressure") c.memory_pressure;
        state = sampler root (λ s. read_sampler_toggle json s "state") c.state;
        events = sampler root (λ s. read_sampler_toggle json s "events") c.events;
        render_gpu_timestamps =
            sampler root
              (λ s. read_sampler_toggle json s "render_gpu_timestamps")
              c.render_gpu_timestamps;
        cpu_breakdown =
            sampler root (λ s. at json s "cpu_breakdown" (read_cpu_breakdown json)) c.cpu_breakdown;
        papyrus = sampler root (λ s. at json s "papyrus" (read_papyrus json)) c.papyrus;
        streaming = sampler root (λ s. at json s "streaming" (read_streaming json)) c.streaming;
      }
  unfolding at
  all_samplers root c = elim (Option-cases (json.find root "samplers")) [
    | inl e ↦ rw (e, at) refl
    | inr (s, e) ↦ rw (e, at) (samplers_lem s c)
  ]

  -- The configuration that is read: every section and every sampler is made from its own object in
  -- the file and its own defaults alone, so that a section that is missing or damaged leaves its
  -- defaults and changes no other.
  pub parse_json_lem :
      (root : J)
      → let d = default_config json.num in
        parse_json json root ≡ record {
          log = at json root "log" (read_log json) d.log;
          transport = at json root "transport" (read_transport json) d.transport;
          frame = sampler root (λ s. read_sampler_toggle json s "frame") d.frame;
          memory = sampler root (λ s. read_sampler_toggle json s "memory") d.memory;
          memory_pressure =
              sampler root (λ s. read_sampler_toggle json s "memory_pressure") d.memory_pressure;
          state = sampler root (λ s. read_sampler_toggle json s "state") d.state;
          events = sampler root (λ s. read_sampler_toggle json s "events") d.events;
          render_gpu_timestamps =
              sampler root
                (λ s. read_sampler_toggle json s "render_gpu_timestamps")
                d.render_gpu_timestamps;
          cpu_breakdown =
              sampler root
                (λ s. at json s "cpu_breakdown" (read_cpu_breakdown json))
                d.cpu_breakdown;
          papyrus = sampler root (λ s. at json s "papyrus" (read_papyrus json)) d.papyrus;
          streaming = sampler root (λ s. at json s "streaming" (read_streaming json)) d.streaming;
          stutter_flagger =
              at json root "stutter_flagger" (read_stutter_flagger json) d.stutter_flagger;
          recorder = at json root "recorder" (read_recorder json) d.recorder;
          crash_handler = at json root "crash_handler" (λ o. bool json o "enabled") d.crash_handler;
        }
  unfolding parse_json
  parse_json_lem root =
      let last = λ (c : PluginConfig D).
        at json root "crash_handler"
          (λ o c. record c { crash_handler = bool json o "enabled" c.crash_handler }) c in
      let recorder = λ (c : PluginConfig D).
        at json root "recorder" (λ o c. record c { recorder = read_recorder json o c.recorder })
          c in
      let stutter = λ (c : PluginConfig D).
        at json root "stutter_flagger"
          (λ o c. record c { stutter_flagger = read_stutter_flagger json o c.stutter_flagger }) c in
      let samplers = at json root "samplers" (read_samplers json) in
      let transport = λ (c : PluginConfig D).
        at json root "transport" (λ o c. record c { transport = read_transport json o c.transport })
          c in
      ap (λ c. last (recorder (stutter (samplers (transport c)))))
        (at-part root "log" (default_config json.num) (λ c. c.log) (λ c p. record c { log = p })
          (read_log json) refl)
      ∙ ap (λ c. last (recorder (stutter (samplers c))))
          (at-part root "transport" _ (λ c. c.transport) (λ c p. record c { transport = p })
            (read_transport json) refl)
      ∙ ap (λ c. last (recorder (stutter c))) (all_samplers root _)
      ∙ ap (λ c. last (recorder c))
          (at-part root "stutter_flagger" _ (λ c. c.stutter_flagger)
            (λ c p. record c { stutter_flagger = p }) (read_stutter_flagger json) refl)
      ∙ ap last (
          at-part root "recorder" _ (λ c. c.recorder) (λ c p. record c { recorder = p })
            (read_recorder json) refl)
      ∙ at-part root "crash_handler" _ (λ c. c.crash_handler)
          (λ c p. record c { crash_handler = p }) (λ o. bool json o "enabled") refl
