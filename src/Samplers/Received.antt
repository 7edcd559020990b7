-- ===== src/Samplers/Received.antt =====
-- The branches of `Ingest` (viewer/src/state/telemetry_store.cpp) for the records of
-- plugin/src/samplers/memory_sampler.cpp.
use skygraph.Prelude.{
  ◌==◌, ltb, ◌-◌, if◌then◌else◌, ℕ, ◌+◌, ◌%◌, ◌^◌, ◌≡◌, refl, ap, ◌∙◌, String, Option, none, some,
  List,
}
use skygraph.Plugin.Records.{Value, Fields, num, object, field, lookup, end, str}
use skygraph.Plugin.Decode.{Decodes, string_of-str, float_of-num, get_t-num}
use skygraph.Store.{TelemetryStore, MemorySample, PressureSample, low_rate_ring}
use skygraph.Store.Json.{Json}
use skygraph.Store.Rings.{push_capped}
use skygraph.Store.Decode.{Arg, memory_of, pressure_of}
use skygraph.Store.Ingest.{done, ingest, ingest_memory, ingest_pressure, route, kind_of}
use skygraph.Samplers.Memory.{Doubles, MemorySampler, Observation}

module _ {F D D' : Type 0} (fl : Doubles F D) (float : D → F) (double : D → D') where
  -- A number of bytes as the graphs show it, through the float that is sent.
  abbrev pub graph_mb : D → F
  graph_mb d = float (fl.widen (fl.narrow d))

  abbrev pub mb_of : Option (ℕ × ℕ) → D × D
  mb_of none = (fl.zero, fl.zero)
  mb_of (some (a, b)) = (fl.to_mb a, fl.to_mb b)

  abbrev pub memory_shown : Observation D → MemorySample F D'
  memory_shown o = record {
    t = double (o.wall);
    working_set_mb = graph_mb (fl.to_mb (o.working_set));
    private_mb = graph_mb (fl.to_mb (o.private_usage));
    vram_used_mb = graph_mb ((mb_of (o.vram)).0);
    vram_budget_mb = graph_mb ((mb_of (o.vram)).1);
  }

  -- The faults per second since the last sample: nothing without one (its time is 0), or if the clock
  -- has not gone on; the counts are subtracted as words of 64 bits.
  abbrev pub rate_since : ℕ → ℕ → ℕ → ℕ → D
  rate_since last_count last_time count now =
      if last_time == 0
      then fl.zero
      else if ltb last_time now
      then fl.per_second ((count + 2 ^ 64 - last_count) % 2 ^ 64) (now - last_time)
      else fl.zero

  abbrev pub pressure_shown : MemorySampler F D → Observation D → PressureSample F D'
  pressure_shown s o = record {
    t = double (o.wall);
    page_faults_per_sec =
        float (rate_since (s.last_page_fault_count) (s.last_page_fault_time) (o.faults) (o.clock));
    commit_charge_mb = float ((mb_of (o.commit)).0);
    commit_limit_mb = float ((mb_of (o.commit)).1);
  }

module _ {J F D' : Type 0} where
  -- A store that has counted a record and shows a further sample.
  abbrev pub with_memory : MemorySample F D' → TelemetryStore J F D' → TelemetryStore J F D'
  with_memory m store = record store {
    total_records = (store.total_records + 1) % 2 ^ 64;
    last_memory = some m;
    memories = push_capped store.memories m low_rate_ring;
  }

  abbrev pub with_pressure : PressureSample F D' → TelemetryStore J F D' → TelemetryStore J F D'
  with_pressure p store = record store {
    total_records = (store.total_records + 1) % 2 ^ 64;
    last_pressure = some p;
    pressures = push_capped store.pressures p low_rate_ring;
  }

module _ {D J F D' : Type 0} (view : Json J F D') (of : Value D → J) (float : D → F)
    (double : D → D') (decodes : Decodes view of float double)
    (format : String → List (Arg F) → String) where
  abbrev pub memory_fields : D → D → D → D → D → Fields D
  memory_fields t ws priv vu vb = field "type" (str "memory") (
      field "t" (num t) (
        field "working_set_mb" (num ws) (
          field "private_mb" (num priv)
            (field "vram_used_mb" (num vu) (field "vram_budget_mb" (num vb) end)))))

  memory_of_lem :
      (t ws priv vu vb : D)
      → memory_of view format (of (object (memory_fields t ws priv vu vb))) ≡ record {
        t = double t;
        working_set_mb = float ws;
        private_mb = float priv;
        vram_used_mb = float vu;
        vram_budget_mb = float vb;
      }
  unfolding memory_of lookup
  memory_of_lem t ws priv vu vb =
      let fs = memory_fields t ws priv vu vb in
      cc (
        get_t-num view of float double decodes fs t refl,
        float_of-num view of float double decodes fs "working_set_mb" ws refl,
        float_of-num view of float double decodes fs "private_mb" priv refl,
        float_of-num view of float double decodes fs "vram_used_mb" vu refl,
        float_of-num view of float double decodes fs "vram_budget_mb" vb refl,
      )

  pub ingest-memory :
      (t ws priv vu vb : D) (store : TelemetryStore J F D') (time : ℕ)
      → ingest view format store (of (object (memory_fields t ws priv vu vb))) time
        ≡ done (
            with_memory
              (record {
                t = double t;
                working_set_mb = float ws;
                private_mb = float priv;
                vram_used_mb = float vu;
                vram_budget_mb = float vb;
              })
              store)
  unfolding ingest route ingest_memory lookup
  ingest-memory t ws priv vu vb store time =
      let sent = of (object (memory_fields t ws priv vu vb)) in
      let counted : TelemetryStore J F D' = record store {
        total_records = (store.total_records + 1) % 2 ^ 64;
      } in
      ap (λ ty. route view format counted sent time ty (kind_of ty))
        (string_of-str view of float double decodes (memory_fields t ws priv vu vb) "type" "memory"
          refl)
      ∙ ap (λ m. done (with_memory m store)) (memory_of_lem t ws priv vu vb)

  abbrev pub pressure_fields : D → D → D → D → Fields D
  pressure_fields t rate charge limit = field "type" (str "memory.pressure") (
      field "t" (num t) (
        field "page_faults_per_sec" (num rate)
          (field "commit_charge_mb" (num charge) (field "commit_limit_mb" (num limit) end))))

  pressure_of_lem :
      (t rate charge limit : D)
      → pressure_of view format (of (object (pressure_fields t rate charge limit))) ≡ record {
        t = double t;
        page_faults_per_sec = float rate;
        commit_charge_mb = float charge;
        commit_limit_mb = float limit;
      }
  unfolding pressure_of lookup
  pressure_of_lem t rate charge limit =
      let fs = pressure_fields t rate charge limit in
      cc (
        get_t-num view of float double decodes fs t refl,
        float_of-num view of float double decodes fs "page_faults_per_sec" rate refl,
        float_of-num view of float double decodes fs "commit_charge_mb" charge refl,
        float_of-num view of float double decodes fs "commit_limit_mb" limit refl,
      )

  pub ingest-pressure :
      (t rate charge limit : D) (store : TelemetryStore J F D') (time : ℕ)
      → ingest view format store (of (object (pressure_fields t rate charge limit))) time
        ≡ done (
            with_pressure
              (record {
                t = double t;
                page_faults_per_sec = float rate;
                commit_charge_mb = float charge;
                commit_limit_mb = float limit;
              })
              store)
  unfolding ingest route ingest_pressure lookup
  ingest-pressure t rate charge limit store time =
      let sent = of (object (pressure_fields t rate charge limit)) in
      let counted : TelemetryStore J F D' = record store {
        total_records = (store.total_records + 1) % 2 ^ 64;
      } in
      ap (λ ty. route view format counted sent time ty (kind_of ty))
        (string_of-str view of float double decodes (pressure_fields t rate charge limit) "type"
          "memory.pressure" refl)
      ∙ ap (λ p. done (with_pressure p store)) (pressure_of_lem t rate charge limit)
