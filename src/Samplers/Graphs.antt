-- ===== src/Samplers/Graphs.antt =====
-- The records of plugin/src/samplers/memory_sampler.cpp and what they change in the store
-- (viewer/src/state/telemetry_store.cpp).
use skygraph.Prelude.{
  Bool-cases, inl, inr, ◌==◌, ℕ, ◌≡◌, refl, ap, ◌∙◌, String, Bool, true, false, Option, none, some,
  List, [], ◌∷◌, ◌++◌, if◌then◌else◌, map, append-nil, append_assoc, sym,
}
use skygraph.Plugin.Records.{Value, object}
use skygraph.Plugin.Decode.{Decodes}
use skygraph.Store.{TelemetryStore}
use skygraph.Store.Json.{Json}
use skygraph.Store.Decode.{Arg}
use skygraph.Store.Ingest.{done}
use skygraph.Store.Frames.{ingest_all, step-done, ingest_all-nil}
use skygraph.Samplers.Ticker.{tick}
use skygraph.Samplers.Memory.{
  delta_faults, Doubles, MemorySampler, Observation, Vram, memory_record, emit_memory,
  faults_per_sec, emit_pressure, round,
}
use skygraph.Samplers.Received.{
  rate_since, mb_of, memory_shown, pressure_shown, with_memory, with_pressure, pressure_fields,
  ingest-memory, ingest-pressure,
}

module _ {D J F D' : Type 0} (view : Json J F D') (of : Value D → J) (float : D → F)
    (double : D → D') (decodes : Decodes view of float double)
    (format : String → List (Arg F) → String) where
  module _ (fl : Doubles F D) where
    -- The record of each sampler that fires.
    abbrev memory_sent : Observation D → Value D
    memory_sent o =
        memory_record fl (o.wall) (fl.narrow (fl.to_mb (o.working_set)))
          (fl.narrow (fl.to_mb (o.private_usage))) (fl.narrow ((mb_of fl float double (o.vram)).0))
          (fl.narrow ((mb_of fl float double (o.vram)).1))

    abbrev rate_of : MemorySampler F D → Observation D → D
    rate_of s o =
        rate_since fl float double (s.last_page_fault_count) (s.last_page_fault_time) (o.faults)
          (o.clock)

    rate_lem :
        (s : MemorySampler F D) (o : Observation D)
        → faults_per_sec fl s (o.faults) (o.clock) ≡ rate_of s o
    unfolding faults_per_sec delta_faults
    rate_lem s o = elim (Bool-cases (s.last_page_fault_time == 0)) [
      | inl e ↦ rw (e, faults_per_sec) refl
      | inr e ↦ rw (e, faults_per_sec) refl
    ]

    abbrev pressure_sent : MemorySampler F D → Observation D → Value D
    pressure_sent s o = object (
        pressure_fields view of float double decodes format (o.wall) (rate_of s o)
          ((mb_of fl float double (o.commit)).0) ((mb_of fl float double (o.commit)).1))

    abbrev sent_if : Bool → Bool → MemorySampler F D → Observation D → List (Value D)
    sent_if m p s o =
        (if m then memory_sent o ∷ [] else []) ++ (if p then pressure_sent s o ∷ [] else [])

    abbrev emit_if : Bool → MemorySampler F D → Observation D → MemorySampler F D
    emit_if m s o =
        if m then emit_memory fl s (o.wall) (o.working_set) (o.private_usage) (o.vram) else s

    emit_memory-sent :
        (s : MemorySampler F D) (o : Observation D) (vram : Vram)
        → o.vram ≡ vram
        → (emit_memory fl s (o.wall) (o.working_set) (o.private_usage) (o.vram)).submitted
          ≡ s.submitted ++ memory_sent o ∷ []
    unfolding emit_memory
    emit_memory-sent s o none e = rw (e, emit_memory) refl
    emit_memory-sent s o (some v) e = rw (e, emit_memory) refl

    emit_if-sent :
        (m : Bool) (s : MemorySampler F D) (o : Observation D)
        → (emit_if m s o).submitted ≡ s.submitted ++ (if m then memory_sent o ∷ [] else [])
    emit_if-sent true s o = emit_memory-sent s o (o.vram) refl
    emit_if-sent false s o = sym (append-nil s.submitted)

    same_rate :
        (m : Bool) (s : MemorySampler F D) (o : Observation D)
        → faults_per_sec fl (emit_if m s o) (o.faults) (o.clock)
          ≡ faults_per_sec fl s (o.faults) (o.clock)
    unfolding emit_memory faults_per_sec
    same_rate true s o = refl
    same_rate false s o = refl

    emit_pressure-sent :
        (s s' : MemorySampler F D) (o : Observation D) (commit : Option (ℕ × ℕ))
        → o.commit ≡ commit
        → faults_per_sec fl s' (o.faults) (o.clock) ≡ rate_of s o
        → (emit_pressure fl s' (o.wall) (o.faults) (o.clock) (o.commit)).submitted
          ≡ s'.submitted ++ pressure_sent s o ∷ []
    unfolding emit_pressure
    emit_pressure-sent s s' o none e r = rw (e, r, emit_pressure) refl
    emit_pressure-sent s s' o (some c) e r = rw (e, r, emit_pressure) refl

    pressure_if-sent :
        (m p : Bool) (s : MemorySampler F D) (o : Observation D)
        → (if p
            then emit_pressure fl (emit_if m s o) (o.wall) (o.faults) (o.clock) (o.commit)
            else emit_if m s o).submitted
          ≡ s.submitted ++ sent_if m p s o
    pressure_if-sent m true s o =
        emit_pressure-sent s (emit_if m s o) o (o.commit) refl (same_rate m s o ∙ rate_lem s o)
        ∙ ap (λ vs. vs ++ pressure_sent s o ∷ []) (emit_if-sent m s o)
        ∙ append_assoc s.submitted (if m then memory_sent o ∷ [] else []) (pressure_sent s o ∷ [])
    pressure_if-sent m false s o =
        emit_if-sent m s o
        ∙ ap (λ vs. s.submitted ++ vs) (sym (append-nil (if m then memory_sent o ∷ [] else [])))

    -- The count and the time of the sample are kept for the next one.
    kept_if :
        (m p : Bool) (s : MemorySampler F D) (o : Observation D)
        → let s' =
            if p
            then emit_pressure fl (emit_if m s o) (o.wall) (o.faults) (o.clock) (o.commit)
            else emit_if m s o in
          (s'.last_page_fault_count ≡ (if p then o.faults else s.last_page_fault_count))
          × (s'.last_page_fault_time ≡ (if p then o.clock else s.last_page_fault_time))
    unfolding emit_pressure emit_memory
    kept_if true true s o = (refl, refl)
    kept_if false true s o = (refl, refl)
    kept_if true false s o = (refl, refl)
    kept_if false false s o = (refl, refl)

    round-kept :
        (s : MemorySampler F D) (o : Observation D)
        → let s' = (round fl s o).1 in
          let p = (tick s.pressure (o.clock)).0 in
          (s'.last_page_fault_count ≡ (if p then o.faults else s.last_page_fault_count))
          × (s'.last_page_fault_time ≡ (if p then o.clock else s.last_page_fault_time))
    unfolding round
    round-kept s o = kept_if (tick s.mem (o.clock)).0 (tick s.pressure (o.clock)).0 s o

    round-sent :
        (s : MemorySampler F D) (o : Observation D)
        → (round fl s o).1.submitted
          ≡ s.submitted ++ sent_if (tick s.mem (o.clock)).0 (tick s.pressure (o.clock)).0 s o
    unfolding round
    round-sent s o = pressure_if-sent (tick s.mem (o.clock)).0 (tick s.pressure (o.clock)).0 s o

    -- What a viewer shows after a round, if the samplers fire.
    abbrev pub shown_if :
        Bool
        → Bool
        → MemorySampler F D
        → Observation D
        → TelemetryStore J F D'
        → TelemetryStore J F D'
    shown_if m p s o store =
        let store1 = if m then with_memory (memory_shown fl float double o) store else store in
        if p then with_pressure (pressure_shown fl float double s o) store1 else store1

    abbrev arriving : ℕ → List (Value D) → List (J × ℕ)
    arriving time vs = map (λ v. (of v, time)) vs

    memory-step :
        (o : Observation D) (vs : List (Value D)) (store : TelemetryStore J F D') (time : ℕ)
        → ingest_all view format store (arriving time (memory_sent o ∷ vs))
          ≡ ingest_all view format
              (with_memory (memory_shown fl float double o) store)
              (arriving time vs)
    memory-step o vs store time =
        step-done view format store (with_memory (memory_shown fl float double o) store)
          (of (memory_sent o)) time (arriving time vs)
          (ingest-memory view of float double decodes format (o.wall)
            (fl.widen (fl.narrow (fl.to_mb (o.working_set))))
            (fl.widen (fl.narrow (fl.to_mb (o.private_usage))))
            (fl.widen (fl.narrow ((mb_of fl float double (o.vram)).0)))
            (fl.widen (fl.narrow ((mb_of fl float double (o.vram)).1))) store time)

    pressure-step :
        (s : MemorySampler F D) (o : Observation D) (store : TelemetryStore J F D') (time : ℕ)
        → ingest_all view format store (arriving time (pressure_sent s o ∷ []))
          ≡ done (with_pressure (pressure_shown fl float double s o) store)
    pressure-step s o store time =
        step-done view format store (with_pressure (pressure_shown fl float double s o) store)
          (of (pressure_sent s o)) time []
          (ingest-pressure view of float double decodes format (o.wall) (rate_of s o)
            ((mb_of fl float double (o.commit)).0) ((mb_of fl float double (o.commit)).1) store
            time)
        ∙ ingest_all-nil view format (with_pressure (pressure_shown fl float double s o) store)

    sent_if-shown :
        (m p : Bool) (s : MemorySampler F D) (o : Observation D) (store : TelemetryStore J F D')
        (time : ℕ)
        → ingest_all view format store (arriving time (sent_if m p s o))
          ≡ done (shown_if m p s o store)
    sent_if-shown true true s o store time =
        memory-step o (pressure_sent s o ∷ []) store time
        ∙ pressure-step s o (with_memory (memory_shown fl float double o) store) time
    sent_if-shown true false s o store time =
        memory-step o [] store time
        ∙ ingest_all-nil view format (with_memory (memory_shown fl float double o) store)
    sent_if-shown false true s o store time = pressure-step s o store time
    sent_if-shown false false s o store time = ingest_all-nil view format store

    -- After a round of the memory thread, a viewer's store that ingests what was submitted takes in
    -- every record: if the memory sampler is due it counts one and graphs the sizes (0 for a video
    -- memory that is not answered), and then, if the pressure sampler is due, it counts one and graphs
    -- the faults per second since the last sample (none for the first one or a clock that has not gone
    -- on; the difference of the counts is modulo 2^64) and the committed bytes (0 if not answered).
    -- Nothing else of the store changes, and the count and the clock of the sample are those that the
    -- next rate is taken from. Relied on: members that were written are found and read back.
    pub round-shown :
        (s : MemorySampler F D) (o : Observation D) (store : TelemetryStore J F D') (time : ℕ)
        → (vs : List (Value D)) × ((round fl s o).1.submitted ≡ s.submitted ++ vs)
          × (ingest_all view format store (map (λ v. (of v, time)) vs)
              ≡ done (shown_if (tick s.mem (o.clock)).0 (tick s.pressure (o.clock)).0 s o store))
          × ((round fl s o).1.last_page_fault_count
              ≡ (if (tick s.pressure (o.clock)).0 then o.faults else s.last_page_fault_count))
          × ((round fl s o).1.last_page_fault_time
              ≡ (if (tick s.pressure (o.clock)).0 then o.clock else s.last_page_fault_time))
    round-shown s o store time =
        let m = (tick s.mem (o.clock)).0 in
        let p = (tick s.pressure (o.clock)).0 in
        (
          sent_if m p s o,
          round-sent s o,
          sent_if-shown m p s o store time,
          (round-kept s o).0,
          (round-kept s o).1,
        )
