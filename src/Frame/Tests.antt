-- ===== src/Frame/Tests.antt =====
-- The theorems on the frame with whole milliseconds for floats.
use mathlib.Core.List.{foldl}
use skygraph.Prelude.{
  arith, String, if◌then◌else◌, ◌==◌, ℕ, ◌+◌, ◌-◌, ◌*◌, ◌/◌, ◌≡◌, refl, true, List, [], ◌∷◌, ◌++◌,
  ltb, leb, replicate, length-replicate,
}
use skygraph.Cpu.{Accumulators, Snapshot}
use skygraph.Plugin.Samples.{same, view, view-Decodes, empty_store}
use skygraph.Store.Decode.{Arg}
use skygraph.Store.Ingest.{done}
use skygraph.Store.Frames.{ingest_all}
use skygraph.Frame.Hook.{frame, breakdown, thunk}
use skygraph.Frame.Expected.{taken, rate_of, rest_of, expected_stutter}
use skygraph.Frame.Shown.{Median, show, with_stutter, arriving, thunk-shown}
use skygraph.Store.Rings.{newest}
use skygraph.Frame.{Floats, FrameState, window_size, samples, store_sample}
use skygraph.Frame.Cache.{LatestCache}
use skygraph.Frame.Stutter.{StutterState}
use skygraph.Frame.Window.{window_lem}

abbrev first_of : List ℕ → ℕ
first_of [] = 0
first_of (x ∷ xs) = x

abbrev floats : Floats ℕ
floats = record {
  zero_float = 0;
  thousand = 1000;
  add = ◌+◌;
  sub = ◌-◌;
  div = ◌/◌;
  less = ltb;
  less_eq = leb;
  nth_element = λ n xs. first_of xs;
  ms_between = λ a b freq. (b - a) * 1000 / freq;
}

abbrev at_start : FrameState ℕ
at_start = record {
  has_writer = true;
  qpc_freq = 1000;
  last_present_qpc = 0;
  last_cpu_ms = 0;
  gpu_ms = 3;
  rolling_p50_ms = 16;
  window = replicate 240 0;
  window_count = 0;
  window_idx = 0;
}

window_lem_example :
    (a : List ℕ) × (b : List ℕ) × (samples (foldl store_sample at_start (16 ∷ 17 ∷ 16 ∷ []))
      ≡ a ++ b)
    × (b ++ a ≡ newest window_size (16 ∷ 17 ∷ 16 ∷ []))
window_lem_example =
    window_lem at_start (16 ∷ 17 ∷ 16 ∷ []) (length-replicate {A = ℕ} 240 0) refl refl

abbrev cache : LatestCache ℕ ℕ
cache = record {
  ws_mb = 0;
  priv_mb = 0;
  vram_used_mb = 5;
  vram_budget_mb = 8;
  faults = 0;
  commit_charge_mb = 0;
  commit_limit_mb = 0;
  actor_hi = 1;
  actor_mh = 2;
  actor_ml = 3;
  actor_lo = 4;
  loaded_refs = 9;
  stream_queue = 0;
  stream_in_flight = 0;
  stream_bps = 0;
  cell_name = "Whiterun";
  in_flight_cell = "";
}

abbrev flagger : StutterState ℕ
flagger = record { enabled = true; ratio = 2; min_frame_ms = 5; has_writer = true }

abbrev busy : Snapshot ℕ
busy = record { papyrus_ms = 4; havok_ms = 0; ai_ms = 0; render_submit_ms = 9; streaming_ms = 0 }

abbrev counters : Accumulators
counters = record {
  papyrus_us = 4000;
  havok_us = 0;
  ai_us = 0;
  render_submit_us = 9000;
  streaming_us = 0;
}

abbrev in_ms : ℕ → ℕ
in_ms us = us / 1000

abbrev format : String → List (Arg ℕ) → String
format f args = f

thunk-shown_example :
    let out = thunk floats in_ms at_start counters flagger cache [] 100 140 in
    let cpu = floats.ms_between 100 140 1000 in
    let dt = if 0 == 0 then cpu else floats.ms_between 0 140 1000 in
    let bd = taken in_ms counters in
    let now = show view same (λ n. n) (λ n. n) view-Decodes format (λ n. n) 9 10 in
    let frame_shown = now empty_store (frame dt (rate_of floats dt) cpu 3) in
    let breakdown_shown = now frame_shown (breakdown bd (rest_of floats cpu bd)) in
    (ingest_all view format empty_store
        (arriving view same (λ n. n) (λ n. n) view-Decodes format (λ n. n) 9 10 5 out.2)
      ≡ done (
          with_stutter view same
            (λ n. n)
            (λ n. n)
            view-Decodes
            format
            (λ n. n)
            9
            10
            breakdown_shown
            (expected_stutter floats flagger cache [] dt cpu (out.0.rolling_p50_ms) bd)))
    × Median floats (out.0)
thunk-shown_example =
    thunk-shown view same (λ n. n) (λ n. n) view-Decodes format (λ n. n) 9 10 floats in_ms at_start
      counters flagger cache [] 100 140 empty_store 5 refl (omega arith)
