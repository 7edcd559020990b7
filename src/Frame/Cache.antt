-- ===== src/Frame/Cache.antt =====
-- plugin/src/diagnostics/latest_cache.h and latest_cache.cpp: the latest observation of every
-- sampler. `F` is a `float`, `D` a `double`.
use text.Mathlib.Text.{◌==◌}
use skygraph.Prelude.{ℕ, String, ◌||◌, if◌then◌else◌}

pub record LatestCache (F D : Type 0) : Type 0 where
  pub ws_mb : F
  pub priv_mb : F
  pub vram_used_mb : F
  pub vram_budget_mb : F
  pub faults : F
  pub commit_charge_mb : F
  pub commit_limit_mb : F
  pub actor_hi : ℕ
  pub actor_mh : ℕ
  pub actor_ml : ℕ
  pub actor_lo : ℕ
  pub loaded_refs : ℕ
  pub stream_queue : ℕ
  pub stream_in_flight : ℕ
  pub stream_bps : D
  pub cell_name : String
  pub in_flight_cell : String

module _ {F D : Type 0} where
  unfoldable pub update_memory : LatestCache F D → F → F → F → F → LatestCache F D
  update_memory c ws priv vu vb = record c {
    ws_mb = ws;
    priv_mb = priv;
    vram_used_mb = vu;
    vram_budget_mb = vb;
  }

  unfoldable pub update_pressure : LatestCache F D → F → F → F → LatestCache F D
  update_pressure c f cc cl = record c { faults = f; commit_charge_mb = cc; commit_limit_mb = cl }

  unfoldable pub update_state : LatestCache F D → String → ℕ → ℕ → ℕ → ℕ → ℕ → LatestCache F D
  update_state c cell h mh ml lo refs = record c {
    actor_hi = h;
    actor_mh = mh;
    actor_ml = ml;
    actor_lo = lo;
    loaded_refs = refs;
    cell_name = cell;
  }

  unfoldable pub update_streaming : LatestCache F D → ℕ → ℕ → D → LatestCache F D
  update_streaming c q in_flight bps = record c {
    stream_queue = q;
    stream_in_flight = in_flight;
    stream_bps = bps;
  }

  unfoldable pub vram_headroom_mb : (F → F → F) → LatestCache F D → F
  vram_headroom_mb sub c = sub c.vram_budget_mb c.vram_used_mb

  unfoldable pub actor_counts : LatestCache F D → ℕ × ℕ × ℕ × ℕ
  actor_counts c = (c.actor_hi, c.actor_mh, c.actor_ml, c.actor_lo)

  unfoldable pub note_cell_attach_start : LatestCache F D → String → LatestCache F D
  note_cell_attach_start c cell = record c { in_flight_cell = cell }

  unfoldable pub note_cell_attach_complete : LatestCache F D → String → LatestCache F D
  note_cell_attach_complete c cell =
      if c.in_flight_cell == cell || c.in_flight_cell == ""
      then record c { in_flight_cell = "" }
      else c

  unfoldable pub in_flight_cell_load : LatestCache F D → String
  in_flight_cell_load c = c.in_flight_cell
