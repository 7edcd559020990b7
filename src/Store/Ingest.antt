-- ===== src/Store/Ingest.antt =====
-- `TelemetryStore::Ingest`, `Clear` and `ResetPapyrusCumulative` of
-- viewer/src/state/telemetry_store.cpp. `format` is `fmt::format`.
use text.Mathlib.Text.{◌==◌, starts_with}
use skygraph.Prelude.{ℕ, ◌+◌, ◌%◌, ◌^◌, String, none, some, List, [], map, if◌then◌else◌}
use skygraph.Store.{frame_ring, breakdown_ring, low_rate_ring, event_log_cap, TelemetryStore}
use skygraph.Store.Json.{Json, get, get_t, string_of}
use skygraph.Store.Rings.{push_capped}
use skygraph.Store.Scripts.{ingest_scripts}
use skygraph.Store.Decode.{
  Arg, member, connection_of, frame_of, breakdown_of, memory_of, pressure_of, position_of,
  snapshot_of, papyrus_of, stutter_of, event_of,
}

-- What a handler ends in: the store it leaves, or the store at the moment that it threw.
pub data Outcome {ℓ} (S : Type ℓ) : Type ℓ where
  done : S → Outcome S
  threw : S → Outcome S

-- The branches of `Ingest`.
pub data Kind : Type 0 where
  untyped hello heartbeat frame cpu_breakdown memory pressure state papyrus_snapshot papyrus_top
        plugins stutter event streaming ack unknown :
      Kind

-- The chain of tests on the type.
unfoldable pub kind_of : String → Kind
kind_of type =
    if type == ""
    then untyped
    else if type == "hello"
    then hello
    else if type == "heartbeat"
    then heartbeat
    else if type == "frame"
    then frame
    else if type == "cpu_breakdown"
    then cpu_breakdown
    else if type == "memory"
    then memory
    else if type == "memory.pressure"
    then pressure
    else if type == "state"
    then state
    else if type == "papyrus.snapshot"
    then papyrus_snapshot
    else if type == "papyrus.top"
    then papyrus_top
    else if type == "plugins"
    then plugins
    else if type == "event.stutter"
    then stutter
    else if starts_with type "event."
    then event
    else if type == "streaming"
    then streaming
    else if type == "ack"
    then ack
    else unknown

module _ {J F D : Type 0} (json : Json J F D) (format : String → List (Arg F) → String) where
  -- The branches of `Ingest` that change more than one member.
  unfoldable pub ingest_frame : TelemetryStore J F D → J → TelemetryStore J F D
  unfolding frame_of push_capped
  ingest_frame s r = record s {
    last_frame = some (frame_of json format r);
    frames = push_capped s.frames (frame_of json format r) frame_ring;
  }

  unfoldable pub ingest_breakdown : TelemetryStore J F D → J → TelemetryStore J F D
  unfolding breakdown_of push_capped
  ingest_breakdown s r = record s {
    last_breakdown = some (breakdown_of json format r);
    breakdowns = push_capped s.breakdowns (breakdown_of json format r) breakdown_ring;
  }

  unfoldable pub ingest_memory : TelemetryStore J F D → J → TelemetryStore J F D
  unfolding memory_of push_capped
  ingest_memory s r = record s {
    last_memory = some (memory_of json format r);
    memories = push_capped s.memories (memory_of json format r) low_rate_ring;
  }

  unfoldable pub ingest_pressure : TelemetryStore J F D → J → TelemetryStore J F D
  unfolding pressure_of push_capped
  ingest_pressure s r = record s {
    last_pressure = some (pressure_of json format r);
    pressures = push_capped s.pressures (pressure_of json format r) low_rate_ring;
  }

  unfoldable pub ingest_state : TelemetryStore J F D → J → Outcome (TelemetryStore J F D)
  unfolding position_of snapshot_of
  ingest_state s r = elim (position_of json format r) [
    | none ↦ threw s
    | some pos ↦ done (record s { last_state = some (snapshot_of json format r pos) })
  ]

  unfoldable pub ingest_top : TelemetryStore J F D → J → TelemetryStore J F D
  unfolding ingest_scripts
  ingest_top s r =
      member (json.find r "scripts")
        (λ v.
          member (json.elements v)
            (λ js.
              let (hot, total) = ingest_scripts json [] s.papyrus_cumulative_us js in
              record s { hot_scripts = hot; papyrus_cumulative_us = total })
            (record s { hot_scripts = [] }))
        (record s { hot_scripts = [] })

  unfoldable pub ingest_plugins : TelemetryStore J F D → J → TelemetryStore J F D
  unfolding get
  ingest_plugins s r = record s {
    load_order =
        member (json.find r "files")
          (λ v. member (json.elements v) (map (λ f. string_of json f "name")) []) [];
  }

  unfoldable pub ingest_ack : TelemetryStore J F D → J → ℕ → TelemetryStore J F D
  unfolding get
  ingest_ack s r now =
      let path = string_of json r "path" in
      if string_of json r "for_cmd" == "save_session"
      then (if path == "" then s else record s { last_saved_path = some path; last_saved_at = now })
      else s

  -- What each kind of record does, with the record counted already.
  unfoldable pub route :
      TelemetryStore J F D → J → ℕ → String → Kind → Outcome (TelemetryStore J F D)
  unfolding ingest_frame ingest_breakdown ingest_memory ingest_pressure ingest_state ingest_top
      ingest_plugins ingest_ack connection_of papyrus_of stutter_of event_of get_t
  route s r now type untyped = done s
  route s r now type hello = done (record s { connection = some (connection_of json format r now) })
  route s r now type heartbeat = done (record s {
    last_heartbeat_t = get_t json r;
    total_heartbeats = (s.total_heartbeats + 1) % 2 ^ 64;
  })
  route s r now type frame = done (ingest_frame s r)
  route s r now type cpu_breakdown = done (ingest_breakdown s r)
  route s r now type memory = done (ingest_memory s r)
  route s r now type pressure = done (ingest_pressure s r)
  route s r now type state = ingest_state s r
  route s r now type papyrus_snapshot =
      done (record s { last_papyrus = some (papyrus_of json format r) })
  route s r now type papyrus_top = done (ingest_top s r)
  route s r now type plugins = done (ingest_plugins s r)
  route s r now type stutter =
      done (record s { stutters = push_capped s.stutters (stutter_of json format r) low_rate_ring })
  route s r now type event =
      done (record s { events = push_capped s.events (event_of json format r type) event_log_cap })
  route s r now type streaming = done s
  route s r now type ack = done (ingest_ack s r now)
  route s r now type unknown = done s

  unfoldable pub ingest : TelemetryStore J F D → J → ℕ → Outcome (TelemetryStore J F D)
  unfolding get route kind_of
  ingest s r now =
      let type = string_of json r "type" in
      route (record s { total_records = (s.total_records + 1) % 2 ^ 64 }) r now type (kind_of type)

module _ {J F D : Type 0} (json : Json J F D) where
  unfoldable pub clear : TelemetryStore J F D → TelemetryStore J F D
  clear s = record {
    last_frame = none;
    last_breakdown = none;
    last_memory = none;
    last_pressure = none;
    last_state = none;
    last_papyrus = none;
    connection = none;
    hot_scripts = [];
    load_order = [];
    papyrus_cumulative_us = [];
    frames = [];
    breakdowns = [];
    memories = [];
    pressures = [];
    events = [];
    stutters = [];
    last_heartbeat_t = json.zero_double;
    total_records = 0;
    total_heartbeats = 0;
    last_saved_path = none;
    last_saved_at = 0;
  }

unfoldable pub reset_papyrus_cumulative :
    {J F D : Type 0} → TelemetryStore J F D → TelemetryStore J F D
reset_papyrus_cumulative s = record s { papyrus_cumulative_us = [] }
