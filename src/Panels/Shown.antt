-- ===== src/Panels/Shown.antt =====
-- The details of a stutter (viewer/src/panels/stutter_panel.cpp) for the snapshot that the plugin
-- sends (plugin/src/diagnostics/stutter_flagger.cpp).

use text.Mathlib.Text.{◌==◌}
use skygraph.Prelude.{◌<◌, ◌^◌, List, [], ◌∷◌, ◌++◌, All, if◌then◌else◌}
use skygraph.Plugin.Records.{Value, Fields, object, end}
use skygraph.Frame.Stutter.{StutterRecord}
use skygraph.Frame.Json.{snapshot_json}
use skygraph.Panels.Parts.{Small, top_lines, DetailDecodes}
use skygraph.Panels.Details.{DetailJson, Line, cell, in_flight, headroom, faults, queue, actors}

module _ {D J F : Type 0} (json : DetailJson J F) (of : Value D → J) (float : D → F)
    (decodes : DetailDecodes json of float) (widen : F → D) where
  -- The lines after the breakdown.
  abbrev pub context_lines : StutterRecord F → List (Line F)
  context_lines r =
      cell (r.cell)
        ∷ (if r.in_flight_cell_load == "" then [] else in_flight (r.in_flight_cell_load) ∷ [])
      ++ headroom (float (widen (r.vram_headroom_mb)))
        ∷ faults (float (widen (r.page_faults_per_sec)))
        ∷ queue (r.streaming_queue_depth)
        ∷ actors (r.actor_counts.0) (r.actor_counts.1) (r.actor_counts.2) (r.actor_counts.3)
        ∷ top_lines json of float decodes widen (r.top_papyrus)

  abbrev fields_of : Value D → Fields D
  fields_of (object fs) = fs
  fields_of _ = end

  module _ (r : StutterRecord F) (queue_small : r.streaming_queue_depth < 2 ^ 32)
      (high : r.actor_counts.0 < 2 ^ 32) (mid_high : r.actor_counts.1 < 2 ^ 32)
      (mid_low : r.actor_counts.2 < 2 ^ 32) (low : r.actor_counts.3 < 2 ^ 32)
      (small : All Small (r.top_papyrus)) where
    abbrev sent : J
    sent = of (snapshot_json widen r)
