-- ===== src/Frame/Shown.antt =====
-- The records of a frame (plugin/src/samplers/frame_sampler.cpp and
-- plugin/src/diagnostics/stutter_flagger.cpp) and the branches of `Ingest` that read them
-- (viewer/src/state/telemetry_store.cpp).
use mathlib.Core.List.{foldl}
use skygraph.Prelude.{
  ℕ, ◌+◌, ◌%◌, ◌^◌, ◌≡◌, ◌≢◌, sym, subst, take, ◌/◌, true, if◌then◌else◌, ◌==◌, refl, ap, ◌∙◌,
  String, Option, none, some, List, [], ◌∷◌, map,
}
use skygraph.Cpu.{Snapshot, Accumulators, consume_frame}
use skygraph.Attribution.{Entry}
use skygraph.Plugin.Records.{Value, object, lookup}
use skygraph.Plugin.Decode.{Decodes, string_of-str, float_of-num, get_t-num}
use skygraph.Store.{
  TelemetryStore, FrameSample, BreakdownSample, StutterEntry, frame_ring, breakdown_ring,
  low_rate_ring,
}
use skygraph.Store.Json.{Json}
use skygraph.Store.Rings.{push_capped}
use skygraph.Store.Decode.{Arg, frame_of, breakdown_of, stutter_of}
use skygraph.Store.Ingest.{done, ingest, ingest_frame, ingest_breakdown, route, kind_of}
use skygraph.Store.Frames.{ingest_all, step-done, ingest_all-nil}
use skygraph.Frame.{Floats, FrameState, update_rolling_p50}
use skygraph.Frame.Expected.{
  taken, rate_of, rest_of, expected_stutter, consume_frame-taken, on_frame-stutter,
}
use skygraph.Frame.Cache.{LatestCache}
use skygraph.Frame.Stutter.{StutterState, StutterRecord, on_frame}
use skygraph.Frame.Hook.{Record, frame, breakdown, stutter, thunk, thunk-active, stutters}
use skygraph.Frame.Json.{frame_json, breakdown_json, stutter_json, snapshot_json, json_of}

-- The median is the element of the middle rank of the samples that there are.
abbrev pub Median : {F : Type 0} → Floats F → FrameState F → Type 0
Median fl s =
    s.rolling_p50_ms ≡ fl.nth_element (s.window_count / 2) (take (s.window_count) (s.window))

module _ {D J F D' : Type 0} (view : Json J F D') (of : Value D → J) (float : D → F)
    (double : D → D') (decodes : Decodes view of float double)
    (format : String → List (Arg F) → String) (widen : F → D) (t later : D) where
  -- A float as the viewer has it.
  abbrev pub seen : F → F
  seen x = float (widen x)

  abbrev pub frame_seen : F → F → F → F → FrameSample F D'
  frame_seen dt fps cpu gpu = record {
    t = double t;
    dt_ms = seen dt;
    fps = seen fps;
    cpu_ms = seen cpu;
    gpu_ms = seen gpu;
  }

  abbrev pub breakdown_seen : Snapshot F → F → BreakdownSample F D'
  breakdown_seen bd other = record {
    t = double t;
    papyrus_ms = seen (bd.papyrus_ms);
    havok_ms = seen (bd.havok_ms);
    ai_ms = seen (bd.ai_ms);
    render_submit_ms = seen (bd.render_submit_ms);
    streaming_ms = seen (bd.streaming_ms);
    other_ms = seen other;
  }

  abbrev pub stutter_seen : StutterRecord F → StutterEntry J F D'
  stutter_seen r = record {
    t = double later;
    frame_ms = seen (r.frame_ms);
    p50_ms = seen (r.p50_ms);
    ratio = seen (r.ratio);
    snapshot = of (snapshot_json widen r);
  }

  -- What a store shows after a record more.
  abbrev pub show : TelemetryStore J F D' → Record F → TelemetryStore J F D'
  show store (frame dt fps cpu gpu) = record store {
    total_records = (store.total_records + 1) % 2 ^ 64;
    last_frame = some (frame_seen dt fps cpu gpu);
    frames = push_capped store.frames (frame_seen dt fps cpu gpu) frame_ring;
  }
  show store (breakdown bd other) = record store {
    total_records = (store.total_records + 1) % 2 ^ 64;
    last_breakdown = some (breakdown_seen bd other);
    breakdowns = push_capped store.breakdowns (breakdown_seen bd other) breakdown_ring;
  }
  show store (stutter r) = record store {
    total_records = (store.total_records + 1) % 2 ^ 64;
    stutters = push_capped store.stutters (stutter_seen r) low_rate_ring;
  }

  frame_of_lem :
      (dt fps cpu gpu : F)
      → frame_of view format (of (object (frame_json widen t dt fps cpu gpu)))
        ≡ frame_seen dt fps cpu gpu
  unfolding frame_of lookup
  frame_of_lem dt fps cpu gpu =
      let fs = frame_json widen t dt fps cpu gpu in
      cc (
        get_t-num view of float double decodes fs t refl,
        float_of-num view of float double decodes fs "dt_ms" (widen dt) refl,
        float_of-num view of float double decodes fs "fps" (widen fps) refl,
        float_of-num view of float double decodes fs "cpu_frame_ms" (widen cpu) refl,
        float_of-num view of float double decodes fs "gpu_frame_ms" (widen gpu) refl,
      )

  breakdown_of_lem :
      (bd : Snapshot F) (other : F)
      → breakdown_of view format (of (object (breakdown_json widen t bd other)))
        ≡ breakdown_seen bd other
  unfolding breakdown_of lookup
  breakdown_of_lem bd other =
      let fs = breakdown_json widen t bd other in
      cc (
        get_t-num view of float double decodes fs t refl,
        float_of-num view of float double decodes fs "papyrus_ms" (widen (bd.papyrus_ms)) refl,
        float_of-num view of float double decodes fs "havok_ms" (widen (bd.havok_ms)) refl,
        float_of-num view of float double decodes fs "ai_ms" (widen (bd.ai_ms)) refl,
        float_of-num view of float double decodes fs "render_submit_ms"
            (widen (bd.render_submit_ms)) refl,
        float_of-num view of float double decodes fs "streaming_ms" (widen (bd.streaming_ms)) refl,
        float_of-num view of float double decodes fs "other_ms" (widen other) refl,
      )

  stutter_of_lem :
      (r : StutterRecord F)
      → stutter_of view format (of (object (stutter_json widen later r))) ≡ stutter_seen r
  unfolding stutter_of lookup
  stutter_of_lem r =
      let fs = stutter_json widen later r in
      cc (
        get_t-num view of float double decodes fs later refl,
        float_of-num view of float double decodes fs "frame_ms" (widen (r.frame_ms)) refl,
        float_of-num view of float double decodes fs "p50_ms" (widen (r.p50_ms)) refl,
        float_of-num view of float double decodes fs "ratio" (widen (r.ratio)) refl,
        decodes.find_object fs "snapshot" (snapshot_json widen r) refl,
      )

  -- A record that was sent is shown.
  ingest-show :
      (store : TelemetryStore J F D') (r : Record F) (time : ℕ)
      → ingest view format store (of (json_of widen t later r)) time ≡ done (show store r)
  unfolding ingest route ingest_frame ingest_breakdown lookup json_of
  ingest-show store (frame dt fps cpu gpu) time =
      let fs = frame_json widen t dt fps cpu gpu in
      ap
        (λ ty.
          route view format (record store { total_records = (store.total_records + 1) % 2 ^ 64 })
            (of (object fs)) time ty (kind_of ty))
        (string_of-str view of float double decodes fs "type" "frame" refl)
      ∙ ap
          (λ (x : FrameSample F D'). done (record store {
            total_records = (store.total_records + 1) % 2 ^ 64;
            last_frame = some x;
            frames = push_capped store.frames x frame_ring;
          }))
          (frame_of_lem dt fps cpu gpu)
  ingest-show store (breakdown bd other) time =
      let fs = breakdown_json widen t bd other in
      ap
        (λ ty.
          route view format (record store { total_records = (store.total_records + 1) % 2 ^ 64 })
            (of (object fs)) time ty (kind_of ty))
        (string_of-str view of float double decodes fs "type" "cpu_breakdown" refl)
      ∙ ap
          (λ (x : BreakdownSample F D'). done (record store {
            total_records = (store.total_records + 1) % 2 ^ 64;
            last_breakdown = some x;
            breakdowns = push_capped store.breakdowns x breakdown_ring;
          }))
          (breakdown_of_lem bd other)
  ingest-show store (stutter r) time =
      let fs = stutter_json widen later r in
      ap
        (λ ty.
          route view format (record store { total_records = (store.total_records + 1) % 2 ^ 64 })
            (of (object fs)) time ty (kind_of ty))
        (string_of-str view of float double decodes fs "type" "event.stutter" refl)
      ∙ ap
          (λ (x : StutterEntry J F D'). done (record store {
            total_records = (store.total_records + 1) % 2 ^ 64;
            stutters = push_capped store.stutters x low_rate_ring;
          }))
          (stutter_of_lem r)

  abbrev pub arriving : ℕ → List (Record F) → List (J × ℕ)
  arriving time rs = map (λ r. (of (json_of widen t later r), time)) rs

  records-show :
      (store : TelemetryStore J F D') (rs : List (Record F)) (time : ℕ)
      → ingest_all view format store (arriving time rs) ≡ done (foldl show store rs)
  records-show store [] time = ingest_all-nil view format store
  records-show store (r ∷ rs) time =
      step-done view format store (show store r) (of (json_of widen t later r)) time
        (arriving time rs) (ingest-show store r time)
      ∙ records-show (show store r) rs time

  abbrev pub with_stutter : TelemetryStore J F D' → Option (StutterRecord F) → TelemetryStore J F D'
  with_stutter store none = store
  with_stutter store (some r) = show store (stutter r)

  foldl-stutters :
      (fl : Floats F) (to_ms : ℕ → F) (store : TelemetryStore J F D') (o : Option (StutterRecord F))
      → foldl show store (stutters fl to_ms o) ≡ with_stutter store o
  foldl-stutters fl to_ms store none = refl
  foldl-stutters fl to_ms store (some r) = refl

  -- The median of the hook after a frame.
  median : (fl : Floats F) (s : FrameState F) (dt : F) → Median fl (update_rolling_p50 fl s dt)
  unfolding update_rolling_p50
  median fl s dt = refl

  -- After a frame for which the hook has a clock and a writer, a viewer's store that ingests what was
  -- submitted shows that frame: its sample (the time since the last frame, or that of the original for
  -- the first one, and a thousand divided by it) is the last one and the newest of the ring; the
  -- breakdown is of the microseconds that each subsystem had counted and of the rest of the frame; and
  -- if the flagger is on and the frame is long enough, against the least time and against the median
  -- of the hook's window, there is a stutter with its snapshot, the newest entry of the list. Each
  -- record is counted and nothing else changes. Relied on: members that were written are found and
  -- read back.
  pub thunk-shown :
      (fl : Floats F) (to_ms : ℕ → F) (s : FrameState F) (acc : Accumulators)
      (flagger : StutterState F) (cache : LatestCache F D) (top : List Entry) (before after : ℕ)
      (store : TelemetryStore J F D') (time : ℕ)
      → s.has_writer ≡ true
      → s.qpc_freq ≢ 0
      → let out = thunk fl to_ms s acc flagger cache top before after in
        let cpu = fl.ms_between before after s.qpc_freq in
        let dt =
          if s.last_present_qpc == 0
          then cpu
          else fl.ms_between s.last_present_qpc after s.qpc_freq in
        let bd = taken to_ms acc in
        let frame_shown = show store (frame dt (rate_of fl dt) cpu s.gpu_ms) in
        let breakdown_shown = show frame_shown (breakdown bd (rest_of fl cpu bd)) in
        (ingest_all view format store (arriving time out.2)
          ≡ done (
              with_stutter breakdown_shown
                (expected_stutter fl flagger cache top dt cpu (out.0.rolling_p50_ms) bd)))
        × Median fl (out.0)
  thunk-shown fl to_ms s acc flagger cache top before after store time w f =
      let cpu = fl.ms_between before after s.qpc_freq in
      let dt =
        if s.last_present_qpc == 0
        then cpu
        else fl.ms_between s.last_present_qpc after s.qpc_freq in
      let shown_with = λ (bd : Snapshot F).
        show (show store (frame dt (rate_of fl dt) cpu s.gpu_ms))
          (breakdown bd (rest_of fl cpu bd)) in
      let bd = (consume_frame to_ms acc).0 in
      let e = thunk-active fl to_ms s acc flagger cache top before after w f in
      let out = thunk fl to_ms s acc flagger cache top before after in
      (
        records-show store (out.2) time
            ∙ ap
                (λ (o : FrameState F × Accumulators × List (Record F)). done (foldl show store o.2))
                e
            ∙ ap done (foldl-stutters fl to_ms (shown_with bd) _)
            ∙ ap
                (λ (o : FrameState F × Accumulators × List (Record F)). done (
                  with_stutter (shown_with bd)
                    (on_frame fl flagger cache top dt cpu (o.0.rolling_p50_ms) bd)))
                (sym e)
            ∙ ap (λ o. done (with_stutter (shown_with bd) o))
                (on_frame-stutter fl flagger cache top dt cpu (out.0.rolling_p50_ms) bd)
            ∙ ap
                (λ b. done (
                  with_stutter (shown_with b)
                    (expected_stutter fl flagger cache top dt cpu (out.0.rolling_p50_ms) b)))
                (consume_frame-taken to_ms acc),
        subst (λ (o : FrameState F × Accumulators × List (Record F)). Median fl (o.0)) (sym e)
            (median fl (record s { last_present_qpc = after; last_cpu_ms = cpu }) dt),
      )
