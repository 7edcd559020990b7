-- ===== src/Plugin/Toggles.antt =====
-- Which parts run after the messages of SKSE (plugin/src/plugin.cpp).
use skygraph.Prelude.{
  ℕ, zero, suc, sym, ap, Option, none, some, ◌&&◌, if◌then◌else◌, ◌≡◌, refl, ◌∙◌, subst, Bool, true,
  false, ◌||◌, List, [], ◌∷◌,
}
use skygraph.Config.{PluginConfig, CpuBreakdownConfig}
use skygraph.Plugin.Startup.{
  Plugin, Message, null_message, post_load, data_loaded, save_game, post_load_game, pre_load_game,
  other, on_post_load, on_data_loaded, on_skse_message, on_messages, load,
}
use skygraph.Plugin.Parts.{
  loaded, has_data, Running, or_true, or_false, post_load-Running, data_loaded-Running,
  save-Running, fixed, save-fixed, load-Running,
}

-- A change, made a number of times.
abbrev pub repeat : {E : Type 0} → ℕ → (E → E) → E → E
repeat zero f e = e
repeat (suc n) f e = repeat n f (f e)

-- How often the hooks are installed.
abbrev pub installs : Bool → List Message → ℕ
installs false ms = 0
installs true [] = 0
installs true (post_load ∷ ms) = suc (installs true ms)
installs true (_ ∷ ms) = installs true ms

module _ {E : Type 0} (install_hooks : CpuBreakdownConfig → E → E) where
  loaded-hooks :
      (b : Bool) (c : CpuBreakdownConfig) (e : E) (ms : List Message)
      → repeat (installs b ms) (install_hooks c) (if b then install_hooks c e else e)
        ≡ repeat (installs b (post_load ∷ ms)) (install_hooks c) e
  loaded-hooks false c e ms = refl
  loaded-hooks true c e ms = refl

  skipped :
      (b : Bool) (c : CpuBreakdownConfig) (e : E) (m : Message) (ms : List Message)
      → installs true (m ∷ ms) ≡ installs true ms
      → repeat (installs b ms) (install_hooks c) e
        ≡ repeat (installs b (m ∷ ms)) (install_hooks c) e
  skipped false c e m ms h = refl
  skipped true c e m ms h = ap (λ n. repeat n (install_hooks c) e) (sym h)

module _ {D R E : Type 0} (install_hooks : CpuBreakdownConfig → E → E)
    (start_recorder : R → Bool × R) where
  messages-Running :
      (a b : Bool) (p : Plugin D R E) (ms : List Message)
      → Running a b p
      → Running (a || loaded ms) (b || has_data ms) (on_messages install_hooks start_recorder p ms)
  unfolding on_messages on_skse_message
  messages-Running a b p [] h =
      subst (λ t. Running t (b || false) p) (or_false a) (subst (λ t. Running a t p) (or_false b) h)
  messages-Running a b p (null_message ∷ ms) h = messages-Running a b p ms h
  messages-Running a b p (post_load ∷ ms) h =
      subst
        (λ t. Running t (b || has_data ms) (
          on_messages install_hooks start_recorder (on_post_load install_hooks start_recorder p)
            ms))
        (or_true a)
        (messages-Running true b (on_post_load install_hooks start_recorder p) ms
          (post_load-Running install_hooks start_recorder a b p h))
  messages-Running a b p (data_loaded ∷ ms) h =
      subst
        (λ t. Running (a || loaded ms) t (
          on_messages install_hooks start_recorder (on_data_loaded install_hooks start_recorder p)
            ms))
        (or_true b)
        (messages-Running a true (on_data_loaded install_hooks start_recorder p) ms
          (data_loaded-Running install_hooks start_recorder a b p h))
  messages-Running a b p (save_game name ∷ ms) h =
      messages-Running a b (on_skse_message install_hooks start_recorder p (save_game name)) ms
        (save-Running install_hooks start_recorder a b p name h)
  messages-Running a b p (post_load_game ∷ ms) h = messages-Running a b p ms h
  messages-Running a b p (pre_load_game ∷ ms) h = messages-Running a b p ms h
  messages-Running a b p (other ∷ ms) h = messages-Running a b p ms h

  messages-fixed :
      (p : Plugin D R E) (ms : List Message)
      → fixed install_hooks start_recorder (on_messages install_hooks start_recorder p ms)
        ≡ fixed install_hooks start_recorder p
  unfolding on_messages on_skse_message on_post_load on_data_loaded
  messages-fixed p [] = refl
  messages-fixed p (null_message ∷ ms) = messages-fixed p ms
  messages-fixed p (post_load ∷ ms) =
      messages-fixed (on_post_load install_hooks start_recorder p) ms
  messages-fixed p (data_loaded ∷ ms) =
      messages-fixed (on_data_loaded install_hooks start_recorder p) ms
  messages-fixed p (save_game name ∷ ms) =
      messages-fixed (on_skse_message install_hooks start_recorder p (save_game name)) ms
      ∙ (save-fixed install_hooks start_recorder p name).0
  messages-fixed p (post_load_game ∷ ms) = messages-fixed p ms
  messages-fixed p (pre_load_game ∷ ms) = messages-fixed p ms
  messages-fixed p (other ∷ ms) = messages-fixed p ms

  messages-hooks :
      (p : Plugin D R E) (ms : List Message)
      → (on_messages install_hooks start_recorder p ms).hooks
        ≡ repeat
            (installs (p.config.cpu_breakdown.enabled) ms)
            (install_hooks (p.config.cpu_breakdown))
            p.hooks
  unfolding on_messages on_skse_message on_post_load on_data_loaded
  messages-hooks p [] = nothing (p.config.cpu_breakdown.enabled)
    where
      nothing :
          (b : Bool)
          → p.hooks ≡ repeat (installs b []) (install_hooks (p.config.cpu_breakdown)) p.hooks
      nothing false = refl
      nothing true = refl
  messages-hooks p (null_message ∷ ms) =
      messages-hooks p ms
      ∙ skipped install_hooks (p.config.cpu_breakdown.enabled) (p.config.cpu_breakdown) p.hooks
          null_message ms refl
  messages-hooks p (post_load ∷ ms) =
      messages-hooks (on_post_load install_hooks start_recorder p) ms
      ∙ loaded-hooks install_hooks (p.config.cpu_breakdown.enabled) (p.config.cpu_breakdown) p.hooks
          ms
  messages-hooks p (data_loaded ∷ ms) =
      messages-hooks (on_data_loaded install_hooks start_recorder p) ms
      ∙ skipped install_hooks (p.config.cpu_breakdown.enabled) (p.config.cpu_breakdown) p.hooks
          data_loaded ms refl
  messages-hooks p (save_game name ∷ ms) =
      let q = on_skse_message install_hooks start_recorder p (save_game name) in
      let (same, hooks) = save-fixed install_hooks start_recorder p name in
      let config : q.config ≡ p.config =
        ap (λ (t : PluginConfig D × Option R × Bool × Bool × Bool). t.0) same in
      messages-hooks q ms
      ∙ ap
          (λ (c : PluginConfig D).
            repeat (installs (c.cpu_breakdown.enabled) ms) (install_hooks (c.cpu_breakdown))
              q.hooks)
          config
      ∙ ap
          (repeat (installs (p.config.cpu_breakdown.enabled) ms)
            (install_hooks (p.config.cpu_breakdown)))
          hooks
      ∙ skipped install_hooks (p.config.cpu_breakdown.enabled) (p.config.cpu_breakdown) p.hooks
          (save_game name) ms refl
  messages-hooks p (post_load_game ∷ ms) =
      messages-hooks p ms
      ∙ skipped install_hooks (p.config.cpu_breakdown.enabled) (p.config.cpu_breakdown) p.hooks
          post_load_game ms refl
  messages-hooks p (pre_load_game ∷ ms) =
      messages-hooks p ms
      ∙ skipped install_hooks (p.config.cpu_breakdown.enabled) (p.config.cpu_breakdown) p.hooks
          pre_load_game ms refl
  messages-hooks p (other ∷ ms) =
      messages-hooks p ms
      ∙ skipped install_hooks (p.config.cpu_breakdown.enabled) (p.config.cpu_breakdown) p.hooks
          other ms refl

  -- After the plugin was loaded with a configuration and any messages came, whatever their order and
  -- number: a part runs exactly if its toggle is on and the message that starts it has come (frame,
  -- GPU, Papyrus and streaming at kPostLoad; state and events at kDataLoaded; breakdown at load; the
  -- memory thread at load, if the toggle of memory or that of its pressure is on). The configuration
  -- stays as it was read, the recorder is there (started, and attached if it started) exactly if it
  -- is enabled, the crash handler exactly if its toggle is on, and the heartbeat runs; the subsystem
  -- hooks are installed once for every kPostLoad if the breakdown is on, and otherwise never.
  pub load-Running_all :
      (config : PluginConfig D) (r : R) (hooks : E) (ms : List Message)
      → let p =
          on_messages install_hooks start_recorder
            (load install_hooks start_recorder config r hooks)
            ms in
        Running (loaded ms) (has_data ms) p
        × (p.config ≡ config)
        × (p.recorder ≡ (if config.recorder.enabled then some (start_recorder r).1 else none))
        × (p.attached ≡ (config.recorder.enabled && (start_recorder r).0))
        × (p.crash_handler ≡ config.crash_handler)
        × (p.heartbeat_running ≡ true)
        × (p.hooks
            ≡ repeat
                (installs (config.cpu_breakdown.enabled) ms)
                (install_hooks (config.cpu_breakdown))
                hooks)
  unfolding load
  load-Running_all config r hooks ms =
      let p0 = load install_hooks start_recorder config r hooks in
      let same = messages-fixed p0 ms in
      (
        messages-Running false false p0 ms
            (load-Running install_hooks start_recorder config r hooks),
        ap (λ (t : PluginConfig D × Option R × Bool × Bool × Bool). t.0) same,
        ap (λ (t : PluginConfig D × Option R × Bool × Bool × Bool). t.1) same,
        ap (λ (t : PluginConfig D × Option R × Bool × Bool × Bool). t.2) same,
        ap (λ (t : PluginConfig D × Option R × Bool × Bool × Bool). t.3) same,
        ap (λ (t : PluginConfig D × Option R × Bool × Bool × Bool). t.4) same,
        messages-hooks p0 ms,
      )
