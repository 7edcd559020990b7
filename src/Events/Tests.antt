-- ===== src/Events/Tests.antt =====
-- The theorem on the times of the cells at a concrete history; a duration is its microseconds.
use skygraph.Prelude.{
  ℕ, ◌≡◌, refl, String, true, Option, none, some, List, [], ◌∷◌, ◌++◌, All, arith,
}
use skygraph.Cpu.{ℤ, pos, negsuc, difference}
use skygraph.Plugin.Records.{Value}
use skygraph.Events.{Cell, EventSources}
use skygraph.Events.Entries.{
  CellEvent, attached, detached, fully_loaded, Elsewhere, handle, handle_all,
}
use skygraph.Events.Timing.{written, attach-durations}

abbrev as_ms : ℤ → ℕ
as_ms (pos n) = n
as_ms (negsuc n) = 0

abbrev dump : Value ℕ → Option String
dump v = some "a record"

abbrev hall : Cell
hall = record { form_id = 5; editor_id = ""; name = "Hall" }

abbrev yard : Cell
yard = record { form_id = 6; editor_id = "Yard"; name = "" }

abbrev sources : EventSources ℕ ℕ
sources = record {
  has_writer = true;
  attach_start_us = λ id. none;
  cache = record {
    ws_mb = 0;
    priv_mb = 0;
    vram_used_mb = 0;
    vram_budget_mb = 0;
    faults = 0;
    commit_charge_mb = 0;
    commit_limit_mb = 0;
    actor_hi = 0;
    actor_mh = 0;
    actor_ml = 0;
    actor_lo = 0;
    loaded_refs = 0;
    stream_queue = 0;
    stream_in_flight = 0;
    stream_bps = 0;
    cell_name = "";
    in_flight_cell = "";
  };
  submitted = [];
}

abbrev elsewhere : List (CellEvent ℕ)
elsewhere = attached yard 120 1 ∷ fully_loaded yard 130 1 ∷ []

elsewhere-Elsewhere : All (Elsewhere 5) elsewhere
elsewhere-Elsewhere = (λ e. omega arith, (tt, tt))

abbrev before : EventSources ℕ ℕ
before = handle_all dump as_ms 0 (handle dump as_ms 0 sources (attached hall 100 1)) elsewhere

abbrev after : EventSources ℕ ℕ
after = handle_all dump as_ms 0 (handle dump as_ms 0 before (detached hall 900 3)) elsewhere

attach-durations_example :
    ((handle dump as_ms 0 before (fully_loaded hall 150 2)).submitted
      ≡ before.submitted ++ written dump "event.cell_attach" hall 2 (as_ms (difference 150 100)))
    × ((handle dump as_ms 0 before (detached hall 900 3)).submitted
        ≡ before.submitted ++ written dump "event.cell_detach" hall 3 (as_ms (difference 900 100)))
    × ((handle dump as_ms 0 after (detached hall 950 4)).submitted
        ≡ after.submitted ++ written dump "event.cell_detach" hall 4 0)
attach-durations_example =
    attach-durations dump as_ms 0 sources hall 100 150 900 950 1 2 3 4 elsewhere elsewhere refl
      (λ e. omega arith) elsewhere-Elsewhere elsewhere-Elsewhere
