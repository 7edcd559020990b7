-- ===== src/Plugin/Parts.antt =====
-- Which parts of the plugin run, and that each message keeps it (plugin/src/plugin.cpp).
use skygraph.Prelude.{
  ◌≡◌, refl, ap, ◌∙◌, String, Bool, true, false, ◌&&◌, ◌||◌, Option, none, some, List, [], ◌∷◌,
  ◌++◌, if◌then◌else◌, if-all,
}
use skygraph.Config.{PluginConfig, CpuBreakdownConfig}
use skygraph.Plugin.Startup.{
  Plugin, Message, post_load, data_loaded, save_game, Sampler, absent, created, started, start_if,
  on_post_load, on_data_loaded, emit_save, on_skse_message, load,
}

-- Was the message among them?
abbrev pub loaded : List Message → Bool
loaded [] = false
loaded (post_load ∷ ms) = true
loaded (_ ∷ ms) = loaded ms

abbrev pub has_data : List Message → Bool
has_data [] = false
has_data (data_loaded ∷ ms) = true
has_data (_ ∷ ms) = has_data ms

-- A part that is made at load and started at its message, if it is enabled.
abbrev pub staged : Bool → Bool → Sampler
staged enabled seen = if enabled then (if seen then started else created) else absent

-- A part that is made and started at its message.
abbrev pub late : Bool → Bool → Sampler
late enabled seen = if enabled && seen then started else absent

-- The parts that run, from the messages seen.
pub record Running {D R E : Type 0} (a b : Bool) (p : Plugin D R E) : Type 0 where
  pub transport : p.transport_running ≡ true
  pub frame : p.frame ≡ staged (p.config.frame.enabled) a
  pub gpu : p.gpu ≡ staged (p.config.render_gpu_timestamps.enabled) a
  pub papyrus : p.papyrus ≡ late (p.config.papyrus.enabled) a
  pub streaming : p.streaming ≡ late (p.config.streaming.enabled) a
  pub state : p.state ≡ late (p.config.state.enabled) b
  pub events : p.events_installed ≡ (p.config.events.enabled && b)
  pub breakdown : p.breakdown ≡ (if p.config.cpu_breakdown.enabled then started else absent)
  pub memory :
      p.memory
      ≡ (if p.config.memory.enabled || p.config.memory_pressure.enabled then started else absent)

start-staged : (e a : Bool) → start_if e (staged e a) ≡ staged e true
unfolding start_if
start-staged false a = refl
start-staged true false = refl
start-staged true true = refl

start-late : (e a : Bool) → (if e then started else late e a) ≡ late e true
start-late false a = refl
start-late true a = refl

data-late : (e t b : Bool) → t ≡ true → (if e && t then started else late e b) ≡ late e true
data-late e false b h = cc
data-late false true b h = refl
data-late true true b h = refl

data-events : (e t b : Bool) → t ≡ true → (if e && t then true else (e && b)) ≡ (e && true)
data-events e false b h = cc
data-events false true b h = refl
data-events true true b h = refl

not-late : (e : Bool) → absent ≡ late e false
not-late false = refl
not-late true = refl

not-events : (e : Bool) → false ≡ (e && false)
not-events false = refl
not-events true = refl

pub or_true : (a : Bool) → true ≡ (a || true)
or_true false = refl
or_true true = refl

pub or_false : (a : Bool) → a ≡ (a || false)
or_false false = refl
or_false true = refl

module _ {D R E : Type 0} (install_hooks : CpuBreakdownConfig → E → E)
    (start_recorder : R → Bool × R) where
  pub post_load-Running :
      (a b : Bool) (p : Plugin D R E)
      → Running a b p
      → Running true b (on_post_load install_hooks start_recorder p)
  unfolding on_post_load
  post_load-Running a b p h = record {
    transport = h.transport;
    frame =
        ap (start_if (p.config.frame.enabled)) (h.frame) ∙ start-staged (p.config.frame.enabled) a;
    gpu =
        ap (start_if (p.config.render_gpu_timestamps.enabled)) (h.gpu)
        ∙ start-staged (p.config.render_gpu_timestamps.enabled) a;
    papyrus =
        ap (λ t. if p.config.papyrus.enabled then started else t) (h.papyrus)
        ∙ start-late (p.config.papyrus.enabled) a;
    streaming =
        ap (λ t. if p.config.streaming.enabled then started else t) (h.streaming)
        ∙ start-late (p.config.streaming.enabled) a;
    state = h.state;
    events = h.events;
    breakdown = h.breakdown;
    memory = h.memory;
  }

  pub data_loaded-Running :
      (a b : Bool) (p : Plugin D R E)
      → Running a b p
      → Running a true (on_data_loaded install_hooks start_recorder p)
  unfolding on_data_loaded
  data_loaded-Running a b p h = record {
    transport = h.transport;
    frame = h.frame;
    gpu = h.gpu;
    papyrus = h.papyrus;
    streaming = h.streaming;
    state =
        ap (λ t. if p.config.state.enabled && p.transport_running then started else t) (h.state)
        ∙ data-late (p.config.state.enabled) (p.transport_running) b (h.transport);
    events =
        ap (λ t. if p.config.events.enabled && p.transport_running then true else t) (h.events)
        ∙ data-events (p.config.events.enabled) (p.transport_running) b (h.transport);
    breakdown = h.breakdown;
    memory = h.memory;
  }

  -- The same parts run.
  saved :
      (a b : Bool) (p : Plugin D R E) (saves : List String)
      → Running a b p
      → Running a b (record p { saves = saves })
  saved a b p saves h = record {
    transport = h.transport;
    frame = h.frame;
    gpu = h.gpu;
    papyrus = h.papyrus;
    streaming = h.streaming;
    state = h.state;
    events = h.events;
    breakdown = h.breakdown;
    memory = h.memory;
  }

  emit_save-Running :
      (a b : Bool) (p : Plugin D R E) (name : Option String)
      → Running a b p
      → Running a b (emit_save install_hooks start_recorder p name)
  unfolding emit_save
  emit_save-Running a b p none h =
      if-all (Running a b) (p.events_installed) (record p { saves = p.saves ++ "" ∷ [] }) p
        (saved a b p (p.saves ++ "" ∷ []) h) h
  emit_save-Running a b p (some n) h =
      if-all (Running a b) (p.events_installed) (record p { saves = p.saves ++ n ∷ [] }) p
        (saved a b p (p.saves ++ n ∷ []) h) h

  pub save-Running :
      (a b : Bool) (p : Plugin D R E) (name : Option String)
      → Running a b p
      → Running a b (on_skse_message install_hooks start_recorder p (save_game name))
  unfolding on_skse_message
  save-Running a b p name h =
      if-all (Running a b) (p.config.events.enabled) (emit_save install_hooks start_recorder p name)
        p (emit_save-Running a b p name h) h

  -- What no message changes.
  abbrev pub fixed : Plugin D R E → PluginConfig D × Option R × Bool × Bool × Bool
  fixed p = (p.config, p.recorder, p.attached, p.crash_handler, p.heartbeat_running)

  emit_save-fixed :
      (p : Plugin D R E) (name : Option String)
      → let q = emit_save install_hooks start_recorder p name in
        (fixed q ≡ fixed p) × (q.hooks ≡ p.hooks)
  unfolding emit_save
  emit_save-fixed p none =
      if-all (λ (q : Plugin D R E). (fixed q ≡ fixed p) × (q.hooks ≡ p.hooks)) (p.events_installed)
        (record p { saves = p.saves ++ "" ∷ [] }) p (refl, refl) (refl, refl)
  emit_save-fixed p (some n) =
      if-all (λ (q : Plugin D R E). (fixed q ≡ fixed p) × (q.hooks ≡ p.hooks)) (p.events_installed)
        (record p { saves = p.saves ++ n ∷ [] }) p (refl, refl) (refl, refl)

  pub save-fixed :
      (p : Plugin D R E) (name : Option String)
      → let q = on_skse_message install_hooks start_recorder p (save_game name) in
        (fixed q ≡ fixed p) × (q.hooks ≡ p.hooks)
  unfolding on_skse_message
  save-fixed p name =
      if-all (λ (q : Plugin D R E). (fixed q ≡ fixed p) × (q.hooks ≡ p.hooks))
        (p.config.events.enabled) (emit_save install_hooks start_recorder p name) p
        (emit_save-fixed p name) (refl, refl)

  pub load-Running :
      (config : PluginConfig D) (r : R) (hooks : E)
      → Running false false (load install_hooks start_recorder config r hooks)
  unfolding load
  load-Running config r hooks = record {
    transport = refl;
    frame = refl;
    gpu = refl;
    papyrus = not-late (config.papyrus.enabled);
    streaming = not-late (config.streaming.enabled);
    state = not-late (config.state.enabled);
    events = not-events (config.events.enabled);
    breakdown = refl;
    memory = refl;
  }
