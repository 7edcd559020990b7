-- ===== src/Samplers/Tests.antt =====
-- The theorems on the samplers at concrete observations; a float and a double are numbers.
use skygraph.Prelude.{
  ℕ, ◌+◌, ◌-◌, ◌*◌, ◌%◌, ◌^◌, ◌≤◌, ◌≡◌, ◌⊎◌, refl, String, Bool, true, inr, if◌then◌else◌, none,
  some, List, [], ◌∷◌, ◌++◌, All, map, arith,
}
use skygraph.Cpu.{ℤ, pos, negsuc, Accumulators}
use skygraph.Attribution.Usage.{time_of}
use skygraph.Frame.Cache.{LatestCache}
use skygraph.Plugin.Records.{Value}
use skygraph.Plugin.Samples.{same, view, view-Decodes, empty_store}
use skygraph.Store.Decode.{Arg}
use skygraph.Store.Ingest.{done, ingest}
use skygraph.Samplers.Ticker.{Ticker, tick, ticks, ticks-rate}
use skygraph.Samplers.Memory.{Doubles, MemorySampler, Observation, round}
use skygraph.Samplers.Graphs.{shown_if, round-shown}
use skygraph.Store.Frames.{ingest_all}
use skygraph.Samplers.State.{Player, World, StateSampler, emit_state}
use skygraph.Samplers.Shown.{shown, Ended, emit_state-shown}
use skygraph.Samplers.Streaming.{StreamingSampler}
use skygraph.Samplers.Balance.{Step, begins, ends, sums, counted, begun, ended, run, run-balance}
use skygraph.Samplers.Papyrus.{PapyrusSampler, Stack, no_stack, frame}
use skygraph.Samplers.Totals.{thunks, all_time, time_in, thunks-time}

abbrev ticker : Ticker
ticker = record { period = 10; next = 100 }

abbrev rounds : List ℕ
rounds = 95 ∷ 100 ∷ 105 ∷ 111 ∷ 150 ∷ 155 ∷ []

rounds-below : All (λ n. n ≤ 155) rounds
rounds-below =
    (omega arith, (omega arith, (omega arith, (omega arith, (omega arith, (omega arith, tt))))))

quiet_run : (ticks (tick ticker 104).1 (106 ∷ 109 ∷ [])).0 ≡ 0
unfolding ticks
quiet_run = refl

ticks-rate_example :
    (((ticks ticker rounds).0 ≡ 0) ⊎ (100 + (ticks ticker rounds).0 * 10 ≤ 155 + 10))
    × ((tick (ticks (tick ticker 104).1 (106 ∷ 109 ∷ [])).1 114).0 ≡ true)
ticks-rate_example =
    ticks-rate ticker 155 rounds 104 (106 ∷ 109 ∷ []) 114 rounds-below (omega arith) quiet_run
      (omega arith)

abbrev cache : LatestCache ℕ ℕ
cache = record {
  ws_mb = 0;
  priv_mb = 0;
  vram_used_mb = 0;
  vram_budget_mb = 0;
  faults = 0;
  commit_charge_mb = 0;
  commit_limit_mb = 0;
  actor_hi = 0;
  actor_mh = 0;
  actor_ml = 0;
  actor_lo = 0;
  loaded_refs = 0;
  stream_queue = 0;
  stream_in_flight = 0;
  stream_bps = 0;
  cell_name = "";
  in_flight_cell = "";
}

abbrev zero_acc : Accumulators
zero_acc = record {
  papyrus_us = 0;
  havok_us = 0;
  ai_us = 0;
  render_submit_us = 0;
  streaming_us = 0;
}

abbrev streaming : StreamingSampler ℕ ℕ
streaming = record {
  running = true;
  hook_installed = true;
  mask_bits = 8;
  bytes_this_second = 100;
  in_flight = 1;
  hitch_threshold_us = 5000;
  acc = zero_acc;
  cache = cache;
  submitted = [];
}

abbrev as_ms : ℤ → ℕ
as_ms (pos n) = n
as_ms (negsuc n) = 0

abbrev per_second : ℕ → ℕ
per_second n = 2 * n

abbrev steps : List (Step ℕ)
steps =
    begins
    ∷ begins
    ∷ ends 1 (pos 7) 4096
    ∷ sums 2
    ∷ ends 3 (pos 0) 512
    ∷ begins
    ∷ ends 4 (pos 9000) 64
    ∷ []

run-balance_example :
    (((run as_ms per_second streaming steps).0
          + (run as_ms per_second streaming steps).1.bytes_this_second)
        % 2 ^ 64
      ≡ (100 + counted steps) % 2 ^ 64)
    × (((run as_ms per_second streaming steps).1.in_flight + ended steps) % 2 ^ 32
        ≡ (1 + begun steps) % 2 ^ 32)
run-balance_example = run-balance as_ms per_second streaming steps

abbrev papyrus : PapyrusSampler ℕ
papyrus = record {
  running = true;
  hook_installed = true;
  install_vm_hook = true;
  top_n = 16;
  hook_ids = record { id_se = 0; id_ae = 0; offset = 0 };
  period_sec = 1;
  ticker = ticker;
  mask_bits = 16;
  acc = zero_acc;
  table = record { name = "Door"; total_us = 5; calls_in_window = 1 } ∷ [];
  submitted = [];
}

abbrev calls : List (ℤ × Stack)
calls =
    (pos 3, frame (some "Door"))
    ∷ (pos 4, no_stack)
    ∷ (negsuc 1, frame none)
    ∷ (pos 0, frame (some "Trap"))
    ∷ []

thunks-time_example :
    ((thunks papyrus calls).acc.papyrus_us % 2 ^ 64 ≡ (0 + all_time calls) % 2 ^ 64)
    × (time_of "Door" (thunks papyrus calls).table % 2 ^ 64 ≡ (5 + time_in "Door" calls) % 2 ^ 64)
thunks-time_example = thunks-time papyrus calls "Door" refl

abbrev player : Player ℕ
player = record {
  parent_cell = some (record { editor_id = some ""; name = some "Hall" });
  worldspace = none;
  position = (1, 2, 3);
}

abbrev world : World ℕ
world = record {
  player = some player;
  references = some (some 40);
  processes = some (some 4, none, some 2, some 1);
}

abbrev format : String → List (Arg ℕ) → String
format f args = f

abbrev sampler : StateSampler ℕ ℕ
sampler = record { cache = cache; submitted = [] }

abbrev all_dump : Value ℕ → Bool
all_dump v = true

emit_state-shown_example :
    (v : Value ℕ) × Ended all_dump sampler v (emit_state (λ n. n) all_dump sampler 9 world)
    × (ingest view format empty_store (same v) 3
        ≡ done (record empty_store {
          total_records = (0 + 1) % 2 ^ 64;
          last_state =
              some (shown (λ n. n) (λ n. n) (λ n. n) 9 "Hall" "" (1, 2, 3) (4, 0, 2, 1) 40);
        }))
emit_state-shown_example =
    emit_state-shown view same (λ n. n) (λ n. n) view-Decodes (λ n. n) format all_dump sampler 9
      world player "Hall" "" empty_store 3 refl (inr (refl, refl)) refl

abbrev doubles : Doubles ℕ ℕ
doubles = record {
  zero = 0;
  to_mb = λ n. n - 1;
  narrow = λ n. n;
  widen = λ n. n;
  per_second = λ faults ns. faults + ns;
}

abbrev memory_sampler : MemorySampler ℕ ℕ
memory_sampler = record {
  mem = ticker;
  pressure = ticker;
  last_page_fault_count = 7;
  last_page_fault_time = 90;
  cache = cache;
  submitted = [];
}

abbrev observation : Observation ℕ
observation = record {
  clock = 104;
  wall = 12;
  working_set = 800;
  private_usage = 600;
  vram = some (30, 40);
  faults = 19;
  commit = none;
}

both_fire : (tick ticker 104).0 ≡ true
unfolding tick
both_fire = refl

round-shown_example :
    (vs : List (Value ℕ)) × ((round doubles memory_sampler observation).1.submitted ≡ [] ++ vs)
    × (ingest_all view format empty_store (map (λ v. (same v, 3)) vs)
        ≡ done (
            shown_if view same
              (λ n. n)
              (λ n. n)
              view-Decodes
              format
              doubles
              (tick ticker 104).0
              (tick ticker 104).0
              memory_sampler
              observation
              empty_store))
    × ((round doubles memory_sampler observation).1.last_page_fault_count
        ≡ (if (tick ticker 104).0 then 19 else 7))
    × ((round doubles memory_sampler observation).1.last_page_fault_time
        ≡ (if (tick ticker 104).0 then 104 else 90))
round-shown_example =
    round-shown view same (λ n. n) (λ n. n) view-Decodes format doubles memory_sampler observation
      empty_store 3
