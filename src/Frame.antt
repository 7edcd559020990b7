-- ===== src/Frame.antt =====
-- plugin/src/samplers/frame_sampler.cpp, plugin/src/diagnostics/stutter_flagger.cpp and
-- plugin/src/diagnostics/latest_cache.h and .cpp: what happens at the end of every frame. `F` is a
-- `float`; its operations and `std::nth_element` (the element of a rank) are parameters, and so is
-- the conversion of performance-counter ticks to milliseconds.
pub mod Cache
pub mod Stutter
pub mod Window
pub mod Hook
pub mod Expected
pub mod Json
pub mod Shown
mod Tests
use skygraph.Prelude.{
  ℕ, ◌+◌, ◌/◌, ◌%◌, Bool, true, false, List, [], ◌∷◌, ltb, ◌==◌, if◌then◌else◌, set, take,
}
use skygraph.Cpu.{Snapshot}

pub record Floats (F : Type 0) : Type 0 where
  pub zero_float : F
  pub thousand : F
  pub add : F → F → F
  pub sub : F → F → F
  pub div : F → F → F
  pub less : F → F → Bool
  pub less_eq : F → F → Bool
  pub nth_element : ℕ → List F → F
  pub ms_between : ℕ → ℕ → ℕ → F

abbrev pub window_size : ℕ
window_size = 240

pub record FrameState (F : Type 0) : Type 0 where
  pub has_writer : Bool
  pub qpc_freq : ℕ
  pub last_present_qpc : ℕ
  pub last_cpu_ms : F
  pub gpu_ms : F
  pub rolling_p50_ms : F
  pub window : List F
  pub window_count : ℕ
  pub window_idx : ℕ

module _ {F : Type 0} where
  -- The first part of `UpdateRollingP50`.
  unfoldable pub store_sample : FrameState F → F → FrameState F
  store_sample s dt =
      if ltb s.window_count window_size
      then record s { window = set s.window s.window_count dt; window_count = s.window_count + 1 }
      else record s {
        window = set s.window s.window_idx dt;
        window_idx = (s.window_idx + 1) % window_size;
      }

  -- The samples that the median is taken of.
  abbrev pub samples : FrameState F → List F
  samples s = take s.window_count s.window

  unfoldable pub update_rolling_p50 : Floats F → FrameState F → F → FrameState F
  unfolding store_sample
  update_rolling_p50 fl s dt =
      let s' = store_sample s dt in
      record s' { rolling_p50_ms = fl.nth_element (s'.window_count / 2) (samples s') }

  -- The sum of the subsystems, in the code's order.
  abbrev pub known_ms : Floats F → Snapshot F → F
  known_ms fl b =
      fl.add (fl.add (fl.add (fl.add b.papyrus_ms b.havok_ms) b.ai_ms) b.render_submit_ms)
        b.streaming_ms
