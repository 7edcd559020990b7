-- ===== src/Frame/Expected.antt =====
-- What a frame's records are to say, apart from the code of plugin/src/samplers/frame_sampler.cpp,
-- cpu_breakdown_sampler.cpp and plugin/src/diagnostics/stutter_flagger.cpp.
use skygraph.Prelude.{
  ℕ, ◌≡◌, refl, Bool, true, false, not, ◌||◌, ◌&&◌, Option, none, some, List, if◌then◌else◌,
}
use skygraph.Cpu.{Snapshot, Accumulators, exchange, consume_frame}
use skygraph.Attribution.{Entry}
use skygraph.Frame.{Floats}
use skygraph.Frame.Cache.{LatestCache, vram_headroom_mb, actor_counts, in_flight_cell_load}
use skygraph.Frame.Stutter.{StutterState, StutterRecord, stutter_record, on_frame}

-- The time that each subsystem took, in milliseconds.
abbrev pub taken : {F : Type 0} → (ℕ → F) → Accumulators → Snapshot F
taken to_ms acc = record {
  papyrus_ms = to_ms (acc.papyrus_us);
  havok_ms = to_ms (acc.havok_us);
  ai_ms = to_ms (acc.ai_us);
  render_submit_ms = to_ms (acc.render_submit_us);
  streaming_ms = to_ms (acc.streaming_us);
}

pub consume_frame-taken :
    {F : Type 0} (to_ms : ℕ → F) (acc : Accumulators)
    → (consume_frame to_ms acc).0 ≡ taken to_ms acc
unfolding consume_frame exchange
consume_frame-taken to_ms acc = refl

module _ {F : Type 0} (fl : Floats F) where
  -- A thousand divided by the time of the frame.
  abbrev pub rate_of : F → F
  rate_of dt = if fl.less (fl.zero_float) dt then fl.div (fl.thousand) dt else fl.zero_float

  abbrev pub sum_of : Snapshot F → F
  sum_of b =
      fl.add (fl.add (fl.add (fl.add (b.papyrus_ms) (b.havok_ms)) (b.ai_ms)) (b.render_submit_ms))
        (b.streaming_ms)

  -- The time of the frame that no subsystem took.
  abbrev pub rest_of : F → Snapshot F → F
  rest_of cpu b = if fl.less (sum_of b) cpu then fl.sub cpu (sum_of b) else fl.zero_float

  -- A stutter: the flagger is on, the frame is not below the least time, there is a median, and the
  -- frame's ratio to it is not below the configured one.
  abbrev pub expected_stutter :
      {D : Type 0}
      → StutterState F
      → LatestCache F D
      → List Entry
      → F
      → F
      → F
      → Snapshot F
      → Option (StutterRecord F)
  expected_stutter s cache top dt cpu p50 b =
      if s.enabled
        && s.has_writer
        && not (fl.less dt (s.min_frame_ms))
        && not (fl.less_eq p50 (fl.zero_float))
        && not (fl.less (fl.div dt p50) (s.ratio))
      then some (record {
        frame_ms = dt;
        p50_ms = p50;
        ratio = fl.div dt p50;
        breakdown = b;
        other_ms = fl.sub cpu (sum_of b);
        cpu_ms = cpu;
        cell = cache.cell_name;
        in_flight_cell_load = cache.in_flight_cell;
        top_papyrus = top;
        actor_counts = (cache.actor_hi, cache.actor_mh, cache.actor_ml, cache.actor_lo);
        vram_headroom_mb = fl.sub (cache.vram_budget_mb) (cache.vram_used_mb);
        page_faults_per_sec = cache.faults;
        streaming_queue_depth = cache.stream_queue;
      })
      else none

  gates :
      {R : Type 0} (a b c d e : Bool) (r : R)
      → (if not a || not b
          then none
          else if c
          then none
          else if d
          then none
          else if e
          then none
          else some r)
        ≡ (if a && b && not c && not d && not e then some r else none)
  gates false b c d e r = refl
  gates true false c d e r = refl
  gates true true true d e r = refl
  gates true true false true e r = refl
  gates true true false false true r = refl
  gates true true false false false r = refl

  pub on_frame-stutter :
      {D : Type 0} (s : StutterState F) (cache : LatestCache F D) (top : List Entry)
      (dt cpu p50 : F) (b : Snapshot F)
      → on_frame fl s cache top dt cpu p50 b ≡ expected_stutter s cache top dt cpu p50 b
  unfolding on_frame stutter_record vram_headroom_mb actor_counts in_flight_cell_load
  on_frame-stutter s cache top dt cpu p50 b =
      gates (s.enabled) (s.has_writer) (fl.less dt (s.min_frame_ms))
        (fl.less_eq p50 (fl.zero_float)) (fl.less (fl.div dt p50) (s.ratio)) _
