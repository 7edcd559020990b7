-- ===== src/Protocol/Typed.antt =====
-- The records of the samplers of plugin/src/samplers have the shapes of
-- protocol/include/skygraph/protocol/messages.h.
use skygraph.Prelude.{
  ap, ltb, ◌&&◌, ℕ, ◌+◌, ◌%◌, ◌^◌, ◌≡◌, refl, String, Bool, true, Option, none, some, List, [], ◌∷◌,
  ◌++◌, All, All-append, if-all, Option-all, if◌then◌else◌,
}
use skygraph.Cpu.{ℤ, add_streaming_us}
use skygraph.Attribution.{Entry, snapshot_top_and_decay}
use skygraph.Plugin.Records.{object, Value, lookup}
use skygraph.Frame.Hook.{Record, frame, breakdown, stutter}
use skygraph.Frame.Json.{json_of, snapshot_json}
use skygraph.Samplers.Ticker.{tick}
use skygraph.Samplers.Memory.{
  Doubles, MemorySampler, Observation, Vram, emit_memory, emit_pressure, faults_per_sec,
}
use skygraph.Samplers.Memory
use skygraph.Samplers.State.{
  World, StateSampler, Ending, returned, undefined_name, form_name, actors_of, references_of,
  state_fields, submit_state, emit_state,
}
use skygraph.Samplers.Streaming.{
  int64, StreamingSampler, emit_hitch, on_read_complete, read_ends, summary, reaches, positive,
}
use skygraph.Samplers.Papyrus.{PapyrusSampler, emit_vm_counters, emit_top_scripts, round}
use skygraph.Plugin
use skygraph.Protocol.Hello.{hello_record}
use skygraph.Protocol.{
  whole, fits, Message, hello, heartbeat, frame, cpu_breakdown, papyrus_snapshot, papyrus_top,
  streaming, memory, memory_pressure, state, streaming_hitch, stutter, is_message,
}
use skygraph.Protocol.Lists.{and-both, top-each, scripts-each}

int64-whole : (D : Type 0) (bytes : ℕ) → fits {D = D} whole (int64 bytes) ≡ true
unfolding int64 fits
int64-whole D bytes =
    if-all (λ (v : Value D). fits whole v ≡ true) (ltb (bytes % 2 ^ 64) (2 ^ 63)) _ _ refl refl

module _ {D : Type 0} where
  -- A record of a type of the protocol, with the members of the type.
  abbrev pub Typed : Value D → Type 0
  Typed v = (m : Message) × (is_message m v ≡ true)

  more : (vs : List (Value D)) (v : Value D) → All Typed vs → Typed v → All Typed (vs ++ v ∷ [])
  more vs v h t = All-append Typed vs (v ∷ []) h (t, tt)

  module _ {F : Type 0} (widen : F → D) (t later : D) where
    json-Typed : (r : Record F) → Typed (json_of widen t later r)
    unfolding json_of is_message lookup snapshot_json
    json-Typed (frame dt fps cpu gpu) = (frame, refl)
    json-Typed (breakdown bd other) = (cpu_breakdown, refl)
    json-Typed (stutter r) =
        (stutter, and-both _ true (and-both _ true (top-each D (r.top_papyrus)) refl) refl)

  module _ {F : Type 0} (fl : Doubles F D) where
    memory-Typed :
        (s : MemorySampler F D) (t : D) (ws priv : ℕ) (vram : Vram)
        → All Typed s.submitted
        → All Typed (emit_memory fl s t ws priv vram).submitted
    unfolding emit_memory is_message lookup
    memory-Typed s t ws priv vram h = more s.submitted _ h (memory, refl)

    pressure-Typed :
        (s : MemorySampler F D) (t : D) (count now : ℕ) (commit : Option (ℕ × ℕ))
        → All Typed s.submitted
        → All Typed (emit_pressure fl s t count now commit).submitted
    unfolding emit_pressure is_message lookup
    pressure-Typed s t count now commit h = more s.submitted _ h (memory_pressure, refl)

    round-Typed :
        (s : MemorySampler F D) (o : Observation D)
        → All Typed s.submitted
        → All Typed (Memory.round fl s o).1.submitted
    unfolding Memory.round
    round-Typed s o h =
        let s1 =
          if (tick (s.mem) (o.clock)).0
          then emit_memory fl s (o.wall) (o.working_set) (o.private_usage) (o.vram)
          else s in
        let h1 =
          if-all (λ (x : MemorySampler F D). All Typed x.submitted) (tick (s.mem) (o.clock)).0 _ s
            (memory-Typed s (o.wall) (o.working_set) (o.private_usage) (o.vram) h) h in
        if-all (λ (x : MemorySampler F D). All Typed x.submitted) (tick (s.pressure) (o.clock)).0
          (emit_pressure fl s1 (o.wall) (o.faults) (o.clock) (o.commit)) s1
          (pressure-Typed s1 (o.wall) (o.faults) (o.clock) (o.commit) h1) h1

  module _ {F : Type 0} (widen : F → D) where
    state-Typed :
        (dumps : Value D → Bool) (s : StateSampler F D) (t : D) (w : World F)
        → All Typed s.submitted
        → All Typed (emit_state widen dumps s t w).1.submitted
    unfolding emit_state submit_state is_message lookup
    state-Typed dumps s t w h =
        let Good = λ (r : Ending × StateSampler F D). All Typed r.1.submitted in
        Option-all Good (w.player) (returned, s) _ h
          (λ p e.
            Option-all Good (form_name (p.parent_cell)) (undefined_name, s) _ h
              (λ cell f.
                Option-all Good (form_name (p.worldspace)) (undefined_name, s) _ h
                  (λ world g.
                    if-all Good
                      (dumps (
                        object (
                          state_fields widen t cell world (p.position) (actors_of (w.processes))
                            (references_of (w.references)))))
                      _ _ (more s.submitted _ h (state, refl)) h)))

  module _ {F : Type 0} (ms : ℤ → D) (bps : ℕ → D) where
    hitch-Typed :
        (s : StreamingSampler F D) (t : D) (us : ℤ) (bytes : ℕ) (path : Option String)
        → All Typed s.submitted
        → All Typed (emit_hitch ms bps s t us bytes path).submitted
    unfolding emit_hitch is_message lookup
    hitch-Typed s t us bytes path h =
        more s.submitted _ h (streaming_hitch, ap (λ (b : Bool). b && true) (int64-whole D bytes))

    complete-Typed :
        (s : StreamingSampler F D) (t : D) (us : ℤ) (bytes : ℕ) (path : Option String)
        → All Typed s.submitted
        → All Typed (on_read_complete ms bps s t us bytes path).submitted
    unfolding on_read_complete
    complete-Typed s t us bytes path h =
        let counted = record s {
          acc = add_streaming_us (s.acc) us;
          bytes_this_second = (s.bytes_this_second + bytes) % 2 ^ 64;
        } in
        let s' = if positive us then counted else s in
        let h' =
          if-all (λ (x : StreamingSampler F D). All Typed x.submitted) (positive us) counted s h
            h in
        if-all (λ (x : StreamingSampler F D). All Typed x.submitted)
          (reaches us (s.hitch_threshold_us)) (emit_hitch ms bps s' t us bytes path) s'
          (hitch-Typed s' t us bytes path h') h'

    read-Typed :
        (s : StreamingSampler F D) (t : D) (us : ℤ) (bytes : ℕ)
        → All Typed s.submitted
        → All Typed (read_ends ms bps s t us bytes).submitted
    unfolding read_ends
    read-Typed s t us bytes h = complete-Typed _ t us bytes none h

    summary-Typed :
        (s : StreamingSampler F D) (t : D)
        → All Typed s.submitted
        → All Typed (summary ms bps s t).1.submitted
    unfolding summary is_message lookup
    summary-Typed s t h = more s.submitted _ h (streaming, refl)

  module _ (cps pct : Entry → D → D) (scaled : D → ℕ → ℕ) (p q : D → Bool)
      (sort : ℕ → List Entry → List Entry) (decay : D) where
    counters-Typed :
        (s : PapyrusSampler D) (t : D) (vm : Option (ℕ × ℕ × ℕ × ℕ))
        → All Typed s.submitted
        → All Typed (emit_vm_counters s t vm).submitted
    unfolding emit_vm_counters is_message lookup
    counters-Typed s t none h = h
    counters-Typed s t (some v) h = more s.submitted _ h (papyrus_snapshot, refl)

    top-Typed :
        (s : PapyrusSampler D) (t : D)
        → All Typed s.submitted
        → All Typed (emit_top_scripts cps pct scaled p q sort decay s t).submitted
    unfolding emit_top_scripts is_message lookup
    top-Typed s t h = more s.submitted _ h (
      papyrus_top,
      and-both _ true
          (scripts-each D cps pct scaled p q sort decay (s.period_sec)
            (snapshot_top_and_decay scaled p q sort (s.table) (s.top_n) decay).0)
          refl,
    )

    papyrus-Typed :
        (s : PapyrusSampler D) (now : ℕ) (t : D) (vm : Option (ℕ × ℕ × ℕ × ℕ))
        → All Typed s.submitted
        → All Typed (round cps pct scaled p q sort decay s now t vm).submitted
    unfolding round
    papyrus-Typed s now t vm h =
        let h1 = counters-Typed s t vm h in
        if-all (λ (s' : PapyrusSampler D). All Typed s'.submitted) (tick (s.ticker) now).0 _ s
          (if-all (λ (s' : PapyrusSampler D). All Typed s'.submitted) (s.hook_installed) _ _
            (top-Typed (emit_vm_counters s t vm) t h1) h1)
          h

  -- Whatever they observe: the records of a frame, and all that the memory, state, streaming and
  -- Papyrus samplers have submitted after one more of their steps, if what they had submitted before
  -- was so, and the heartbeats, and the hello record (with the version of the game), are each of a
  -- type of the protocol, with a time and with every member that messages.h gives the type, each a
  -- string, a whole number, a number, a list or an object as it says.
  pub records-Typed :
      {F : Type 0} (widen : F → D) (fl : Doubles F D) (ms : ℤ → D) (bps : ℕ → D)
      (cps pct : Entry → D → D) (scaled : D → ℕ → ℕ) (p q : D → Bool)
      (sort : ℕ → List Entry → List Entry) (decay : D)
      → ((t later : D) (r : Record F) → Typed (json_of widen t later r))
        × ((s : MemorySampler F D) (o : Observation D)
            → All Typed s.submitted
            → All Typed (Memory.round fl s o).1.submitted)
        × ((dumps : Value D → Bool) (s : StateSampler F D) (t : D) (w : World F)
            → All Typed s.submitted
            → All Typed (emit_state widen dumps s t w).1.submitted)
        × ((s : StreamingSampler F D) (t : D) (us : ℤ) (bytes : ℕ)
            → All Typed s.submitted
            → All Typed (read_ends ms bps s t us bytes).submitted
              × All Typed (summary ms bps s t).1.submitted)
        × ((s : PapyrusSampler D) (now : ℕ) (t : D) (vm : Option (ℕ × ℕ × ℕ × ℕ))
            → All Typed s.submitted
            → All Typed (round cps pct scaled p q sort decay s now t vm).submitted)
        × ((t uptime : D) (seq clients : ℕ) → Typed (Plugin.heartbeat t seq uptime clients))
        × ((t : D) (version : String) → Typed (hello_record t (some version)))
  unfolding is_message lookup Plugin.heartbeat hello_record
  records-Typed widen fl ms bps cps pct scaled p q sort decay = (
    json-Typed widen,
    round-Typed fl,
    state-Typed widen,
    λ s t us bytes h. (read-Typed ms bps s t us bytes h, summary-Typed ms bps s t h),
    papyrus-Typed cps pct scaled p q sort decay,
    λ t uptime seq clients. (heartbeat, refl),
    λ t version. (hello, refl),
  )
