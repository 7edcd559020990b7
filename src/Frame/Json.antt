-- ===== src/Frame/Json.antt =====
-- The records of a frame as JSON: the initializer lists of the hook in
-- plugin/src/samplers/frame_sampler.cpp and of `StutterFlagger::OnFrame` in
-- plugin/src/diagnostics/stutter_flagger.cpp. `widen` is the float that JSON keeps as a double.
use skygraph.Prelude.{ℕ, List, [], ◌∷◌}
use skygraph.Cpu.{Snapshot}
use skygraph.Attribution.{Entry}
use skygraph.Plugin.Records.{
  Value, Fields, Values, str, nat, num, object, array, nil, cons, end, field,
}
use skygraph.Frame.Stutter.{StutterRecord}
use skygraph.Frame.Hook.{Record, frame, breakdown, stutter}

unfoldable pub top_json : {D : Type 0} → List Entry → Values D
top_json [] = nil
top_json (e ∷ es) =
    cons (object (field "name" (str (e.name)) (field "us" (nat (e.total_us)) end))) (top_json es)

module _ {F D : Type 0} (widen : F → D) where
  abbrev pub frame_json : D → F → F → F → F → Fields D
  frame_json t dt fps cpu gpu = field "type" (str "frame") (
      field "t" (num t) (
        field "dt_ms" (num (widen dt)) (
          field "fps" (num (widen fps))
            (field "cpu_frame_ms" (num (widen cpu)) (field "gpu_frame_ms" (num (widen gpu)) end)))))

  abbrev pub parts_json : Snapshot F → F → Fields D
  parts_json bd other = field "papyrus_ms" (num (widen (bd.papyrus_ms))) (
      field "havok_ms" (num (widen (bd.havok_ms))) (
        field "ai_ms" (num (widen (bd.ai_ms))) (
          field "render_submit_ms" (num (widen (bd.render_submit_ms))) (
            field "streaming_ms" (num (widen (bd.streaming_ms)))
              (field "other_ms" (num (widen other)) end)))))

  abbrev pub breakdown_json : D → Snapshot F → F → Fields D
  breakdown_json t bd other =
      field "type" (str "cpu_breakdown") (field "t" (num t) (parts_json bd other))

  abbrev pub counts_json : ℕ × ℕ × ℕ × ℕ → Fields D
  counts_json (high, mid_high, mid_low, low) =
      field "high" (nat high) (
        field "mid_high" (nat mid_high) (field "mid_low" (nat mid_low) (field "low" (nat low) end)))

  unfoldable pub snapshot_json : StutterRecord F → Value D
  unfolding top_json
  snapshot_json r = object (
      field "cpu_breakdown" (object (parts_json (r.breakdown) (r.other_ms))) (
        field "cpu_ms" (num (widen (r.cpu_ms))) (
          field "cell" (str (r.cell)) (
            field "in_flight_cell_load" (str (r.in_flight_cell_load)) (
              field "top_papyrus" (array (top_json (r.top_papyrus))) (
                field "actor_counts" (object (counts_json (r.actor_counts))) (
                  field "vram_headroom_mb" (num (widen (r.vram_headroom_mb))) (
                    field "page_faults_per_sec" (num (widen (r.page_faults_per_sec)))
                      (field "streaming_queue_depth" (nat (r.streaming_queue_depth)) end)))))))))

  abbrev pub stutter_json : D → StutterRecord F → Fields D
  stutter_json t r = field "type" (str "event.stutter") (
      field "t" (num t) (
        field "frame_ms" (num (widen (r.frame_ms))) (
          field "p50_ms" (num (widen (r.p50_ms)))
            (field "ratio" (num (widen (r.ratio))) (field "snapshot" (snapshot_json r) end)))))

  -- What is dumped for a record: the frame and its breakdown share a time, a stutter has its own.
  unfoldable pub json_of : D → D → Record F → Value D
  unfolding snapshot_json
  json_of t later (frame dt fps cpu gpu) = object (frame_json t dt fps cpu gpu)
  json_of t later (breakdown bd other) = object (breakdown_json t bd other)
  json_of t later (stutter r) = object (stutter_json later r)
