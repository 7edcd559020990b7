-- ===== src/Cpu.antt =====
-- plugin/src/samplers/cpu_breakdown.h and cpu_breakdown.cpp: the time per subsystem that the hooks
-- add up and every frame takes, the mask of the installed hooks, and the clock. A counter is a
-- 64-bit word; `to_ms` is the conversion of microseconds to a float of milliseconds. The clock of
-- plugin/src/samplers/event_sources.cpp stands here too.
pub mod Accounts
pub mod Mask
pub mod Clock
mod Tests
use skygraph.Prelude.{
  ℕ, zero, suc, ◌+◌, ◌-◌, ◌*◌, ◌/◌, ◌%◌, ◌^◌, bit_and, Bool, true, false, not, Option, none, some,
  List, [], ◌∷◌, ltb, leb, ◌==◌, if◌then◌else◌,
}
use Prim.Native.Nat.{bit_or}

-- `std::int64_t`, as far as it is positive or not.
pub data ℤ : Type 0 where
  pos : ℕ → ℤ
  negsuc : ℕ → ℤ

-- `a - b` of two readings of the clock.
unfoldable pub difference : ℕ → ℕ → ℤ
difference a b = if leb b a then pos (a - b) else negsuc (b - a - 1)

pub record Accumulators : Type 0 where
  pub papyrus_us : ℕ
  pub havok_us : ℕ
  pub ai_us : ℕ
  pub render_submit_us : ℕ
  pub streaming_us : ℕ

pub record Snapshot (F : Type 0) : Type 0 where
  pub papyrus_ms : F
  pub havok_ms : F
  pub ai_ms : F
  pub render_submit_ms : F
  pub streaming_ms : F

-- `if (a_us > 0) counter.fetch_add(a_us)`
unfoldable pub add_us : ℕ → ℤ → ℕ
add_us counter (pos us) = if ltb 0 us then (counter + us) % 2 ^ 64 else counter
add_us counter (negsuc us) = counter

unfoldable pub add_papyrus_us : Accumulators → ℤ → Accumulators
unfolding add_us
add_papyrus_us a us = record a { papyrus_us = add_us a.papyrus_us us }

unfoldable pub add_havok_us : Accumulators → ℤ → Accumulators
unfolding add_us
add_havok_us a us = record a { havok_us = add_us a.havok_us us }

unfoldable pub add_ai_us : Accumulators → ℤ → Accumulators
unfolding add_us
add_ai_us a us = record a { ai_us = add_us a.ai_us us }

unfoldable pub add_render_submit_us : Accumulators → ℤ → Accumulators
unfolding add_us
add_render_submit_us a us = record a { render_submit_us = add_us a.render_submit_us us }

unfoldable pub add_streaming_us : Accumulators → ℤ → Accumulators
unfolding add_us
add_streaming_us a us = record a { streaming_us = add_us a.streaming_us us }

-- The five exchanges of `ConsumeFrame`, each a step of its own.
pub data Counter : Type 0 where
  papyrus havok ai render_submit streaming : Counter

abbrev pub reading : Accumulators → Counter → ℕ
reading a papyrus = a.papyrus_us
reading a havok = a.havok_us
reading a ai = a.ai_us
reading a render_submit = a.render_submit_us
reading a streaming = a.streaming_us

unfoldable pub exchange : Accumulators → Counter → ℕ × Accumulators
exchange a papyrus = (a.papyrus_us, record a { papyrus_us = 0 })
exchange a havok = (a.havok_us, record a { havok_us = 0 })
exchange a ai = (a.ai_us, record a { ai_us = 0 })
exchange a render_submit = (a.render_submit_us, record a { render_submit_us = 0 })
exchange a streaming = (a.streaming_us, record a { streaming_us = 0 })

unfoldable pub consume_frame : {F : Type 0} → (ℕ → F) → Accumulators → Snapshot F × Accumulators
unfolding exchange
consume_frame to_ms a0 =
    let (p, a1) = exchange a0 papyrus in
    let (h, a2) = exchange a1 havok in
    let (i, a3) = exchange a2 ai in
    let (r, a4) = exchange a3 render_submit in
    let (s, a5) = exchange a4 streaming in
    (
      record {
        papyrus_ms = to_ms p;
        havok_ms = to_ms h;
        ai_ms = to_ms i;
        render_submit_ms = to_ms r;
        streaming_ms = to_ms s;
      },
      a5,
    )

pub record EnabledMask : Type 0 where
  pub havok : Bool
  pub ai : Bool
  pub render_submit : Bool
  pub streaming : Bool
  pub papyrus : Bool

unfoldable pub get_enabled_mask : ℕ → EnabledMask
get_enabled_mask b = record {
  havok = not (bit_and b 1 == 0);
  ai = not (bit_and b 2 == 0);
  render_submit = not (bit_and b 4 == 0);
  streaming = not (bit_and b 8 == 0);
  papyrus = not (bit_and b 16 == 0);
}

-- The bits that are stored.
unfoldable pub set_enabled_mask : EnabledMask → ℕ
set_enabled_mask m =
    let b1 : ℕ = if m.havok then bit_or 0 1 else 0 in
    let b2 : ℕ = if m.ai then bit_or b1 2 else b1 in
    let b3 : ℕ = if m.render_submit then bit_or b2 4 else b2 in
    let b4 : ℕ = if m.streaming then bit_or b3 8 else b3 in if m.papyrus then bit_or b4 16 else b4

-- `QpcNowUs` at a reading of the performance counter.
unfoldable pub qpc_now_us : ℕ → ℕ → ℕ
qpc_now_us freq ticks =
    if leb freq 0 then 0 else ticks / freq * 1000000 + ticks % freq * 1000000 / freq

-- `QpcNowUs` of the event sources; `none` where the product overflows `std::int64_t`.
unfoldable pub event_qpc_now_us : ℕ → ℕ → Option ℕ
event_qpc_now_us freq ticks =
    if ltb (ticks * 1000000) (2 ^ 63)
    then some (ticks * 1000000 / (if freq == 0 then 1 else freq))
    else none
