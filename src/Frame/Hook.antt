-- ===== src/Frame/Hook.antt =====
-- The hook of `Main::Update` of plugin/src/samplers/frame_sampler.cpp.
use skygraph.Prelude.{
  ℕ, ◌≤◌, ◌≡◌, ◌≢◌, ◌⊎◌, length, refl, Bool, true, false, not, ◌||◌, Option, none, some, List, [],
  ◌∷◌, if◌then◌else◌, ◌==◌, ltb, Bool-cases, inl, inr, arith,
}
use skygraph.Cpu.{Accumulators, Snapshot, consume_frame}
use skygraph.Attribution.{Entry}
use skygraph.Frame.{window_size, Floats, FrameState, update_rolling_p50, known_ms}
use skygraph.Frame.Cache.{LatestCache}
use skygraph.Frame.Stutter.{StutterState, StutterRecord, on_frame}

-- What is handed to the writer.
pub data Record (F : Type 0) : Type 0 where
  frame : F → F → F → F → Record F
  breakdown : Snapshot F → F → Record F
  stutter : StutterRecord F → Record F

module _ {F : Type 0} (fl : Floats F) (to_ms : ℕ → F) where
  abbrev pub other_ms : F → Snapshot F → F
  other_ms cpu bd =
      if fl.less (known_ms fl bd) cpu then fl.sub cpu (known_ms fl bd) else fl.zero_float

  abbrev pub fps_of : F → F
  fps_of dt = if fl.less fl.zero_float dt then fl.div fl.thousand dt else fl.zero_float

  abbrev pub stutters : Option (StutterRecord F) → List (Record F)
  stutters none = []
  stutters (some r) = stutter r ∷ []

  -- Read the counter before and after the original, then report the frame: the state, the
  -- accumulators and what was submitted, in order.
  unfoldable pub thunk :
      {D : Type 0}
      → FrameState F
      → Accumulators
      → StutterState F
      → LatestCache F D
      → List Entry
      → ℕ
      → ℕ
      → FrameState F × Accumulators × List (Record F)
  unfolding update_rolling_p50 consume_frame on_frame
  thunk s acc flagger cache top before after =
      let cpu = fl.ms_between before after s.qpc_freq in
      let dt =
        if s.last_present_qpc == 0
        then cpu
        else fl.ms_between s.last_present_qpc after s.qpc_freq in
      let s1 =
        update_rolling_p50 fl (record s { last_present_qpc = after; last_cpu_ms = cpu }) dt in
      let (bd, acc') = consume_frame to_ms acc in
      if s.qpc_freq == 0 || not s.has_writer then (s, acc, []) else (
        s1,
        acc',
        frame dt (fps_of dt) cpu s1.gpu_ms
            ∷ breakdown bd (other_ms cpu bd)
            ∷ stutters (on_frame fl flagger cache top dt cpu s1.rolling_p50_ms bd),
      )

  -- All five counters at zero.
  abbrev drained : Accumulators
  drained = record {
    papyrus_us = 0;
    havok_us = 0;
    ai_us = 0;
    render_submit_us = 0;
    streaming_us = 0;
  }

  consumed : (acc : Accumulators) → (consume_frame to_ms acc).1 ≡ drained
  unfolding consume_frame
  consumed acc = refl

  inactive : (n : ℕ) (b : Bool) → (n == 0 || not b) ≡ true → (n ≡ 0) ⊎ (b ≡ false)
  inactive n false e = inr refl
  inactive n true e = inl (ground arith)

  at_most_one : (o : Option (StutterRecord F)) → length (stutters o) ≤ 1
  at_most_one none = omega arith
  at_most_one (some r) = omega arith

  kept :
      (s : FrameState F) (dt : F)
      → ((update_rolling_p50 fl s dt).last_present_qpc ≡ s.last_present_qpc)
        × ((update_rolling_p50 fl s dt).gpu_ms ≡ s.gpu_ms)
  unfolding update_rolling_p50
  kept s dt = elim (Bool-cases (ltb s.window_count window_size)) [
    | inl e ↦ rw e (refl, refl)
    | inr e ↦ rw e (refl, refl)
  ]

  -- What the hook does with a clock and a writer.
  pub thunk-active :
      {D : Type 0} (s : FrameState F) (acc : Accumulators) (flagger : StutterState F)
      (cache : LatestCache F D) (top : List Entry) (before after : ℕ)
      → s.has_writer ≡ true
      → s.qpc_freq ≢ 0
      → let cpu = fl.ms_between before after s.qpc_freq in
        let dt =
          if s.last_present_qpc == 0
          then cpu
          else fl.ms_between s.last_present_qpc after s.qpc_freq in
        let s1 =
          update_rolling_p50 fl (record s { last_present_qpc = after; last_cpu_ms = cpu }) dt in
        let bd = (consume_frame to_ms acc).0 in
        thunk s acc flagger cache top before after ≡ (
          s1,
          drained,
          frame dt (fps_of dt) cpu s.gpu_ms
              ∷ breakdown bd (other_ms cpu bd)
              ∷ stutters (on_frame fl flagger cache top dt cpu s1.rolling_p50_ms bd),
        )
  unfolding thunk
  thunk-active s acc flagger cache top before after w f =
      let cpu = fl.ms_between before after s.qpc_freq in
      let dt =
        if s.last_present_qpc == 0
        then cpu
        else fl.ms_between s.last_present_qpc after s.qpc_freq in
      let off : (s.qpc_freq == 0 || not s.has_writer) ≡ false = ground (arith, w, f) in
      rw (off, thunk)
        (cc (consumed acc, (kept (record s { last_present_qpc = after; last_cpu_ms = cpu }) dt).1))

  -- What the hook does: without a clock or a writer nothing; otherwise it submits a frame record, a
  -- breakdown record of the time that the subsystems took in the frame and then at most one stutter
  -- record, and leaves every counter at zero.
  pub thunk_lem :
      {D : Type 0} (s : FrameState F) (acc : Accumulators) (flagger : StutterState F)
      (cache : LatestCache F D) (top : List Entry) (before after : ℕ)
      → (((s.qpc_freq ≡ 0) ⊎ (s.has_writer ≡ false))
          × (thunk s acc flagger cache top before after ≡ (s, acc, [])))
        ⊎ ((s' : FrameState F) × (dt : F) × (cpu : F) × (rest : List (Record F))
            × (s'.last_present_qpc ≡ after)
            × (thunk s acc flagger cache top before after ≡ (
              s',
              drained,
              frame dt (fps_of dt) cpu s.gpu_ms
                  ∷ breakdown (consume_frame to_ms acc).0 (other_ms cpu (consume_frame to_ms acc).0)
                  ∷ rest,
            ))
            × (length rest ≤ 1))
  unfolding thunk
  thunk_lem s acc flagger cache top before after =
      let cpu = fl.ms_between before after s.qpc_freq in
      let dt =
        if s.last_present_qpc == 0
        then cpu
        else fl.ms_between s.last_present_qpc after s.qpc_freq in
      let s1 =
        update_rolling_p50 fl (record s { last_present_qpc = after; last_cpu_ms = cpu }) dt in
      let rest =
        stutters
          (on_frame fl flagger cache top dt cpu s1.rolling_p50_ms (consume_frame to_ms acc).0) in
      elim (Bool-cases (s.qpc_freq == 0 || not s.has_writer)) [
        | inl e ↦ inl (inactive s.qpc_freq s.has_writer e, rw (e, thunk) refl)
        | inr e ↦ inr (
          s1,
          dt,
          cpu,
          rest,
          (kept _ dt).0,
          rw (e, thunk)
              (cc (
                consumed acc,
                (kept (record s { last_present_qpc = after; last_cpu_ms = cpu }) dt).1,
              )),
          at_most_one _,
        )
      ]

module _ {F : Type 0} where
  unfoldable pub stop : FrameState F → FrameState F
  stop s = record s { has_writer = false }

  unfoldable pub publish_gpu_frame_ms : FrameState F → F → FrameState F
  publish_gpu_frame_ms s ms = record s { gpu_ms = ms }
