-- ===== src/Protocol/Tests.antt =====
-- The theorems on the records with numbers for doubles.
use skygraph.Prelude.{
  ℕ, ◌+◌, ◌-◌, ◌%◌, ◌^◌, ◌≡◌, refl, String, Bool, false, Option, some, List, All,
}
use skygraph.Cpu.{ℤ, pos, negsuc}
use skygraph.Attribution.{Entry}
use skygraph.Plugin
use skygraph.Plugin.Records.{Value, lookup}
use skygraph.Plugin.Samples.{same, view, view-Decodes, empty_store}
use skygraph.Store.Decode.{Arg}
use skygraph.Store.Ingest.{done, ingest}
use skygraph.Frame.Hook.{Record}
use skygraph.Frame.Json.{json_of}
use skygraph.Samplers.Memory
use skygraph.Samplers.Memory.{Doubles, MemorySampler, Observation}
use skygraph.Samplers.State.{World, StateSampler, emit_state}
use skygraph.Samplers.Streaming.{StreamingSampler, read_ends, summary}
use skygraph.Samplers.Papyrus.{PapyrusSampler, round}
use skygraph.Protocol.Hello.{hello_record, connected, hello-connection}
use skygraph.Protocol.Typed.{Typed, records-Typed}

abbrev format : String → List (Arg ℕ) → String
format f args = f

hello-connection_example :
    ingest view format empty_store (same (hello_record 9 (some "1.6.1170"))) 4
    ≡ done (record empty_store {
      total_records = (0 + 1) % 2 ^ 64;
      connection =
          some (connected view same (λ n. n) (λ n. n) view-Decodes format 9 (some "1.6.1170") 4);
    })
unfolding lookup
hello-connection_example =
    hello-connection view same (λ n. n) (λ n. n) view-Decodes format 9 (some "1.6.1170") empty_store
      4 refl

abbrev doubles : Doubles ℕ ℕ
doubles = record {
  zero = 0;
  to_mb = λ n. n - 1;
  narrow = λ n. n;
  widen = λ n. n;
  per_second = λ faults ns. faults + ns;
}

abbrev as_ms : ℤ → ℕ
as_ms (pos n) = n
as_ms (negsuc n) = 0

abbrev of_entry : Entry → ℕ → ℕ
of_entry e n = e.total_us + n

abbrev scaled : ℕ → ℕ → ℕ
scaled f n = n

abbrev no_test : ℕ → Bool
no_test n = false

abbrev unsorted : ℕ → List Entry → List Entry
unsorted n es = es

records-Typed_example :
    ((t later : ℕ) (r : Record ℕ) → Typed (json_of (λ n. n) t later r))
    × ((s : MemorySampler ℕ ℕ) (o : Observation ℕ)
        → All Typed s.submitted
        → All Typed (Memory.round doubles s o).1.submitted)
    × ((dumps : Value ℕ → Bool) (s : StateSampler ℕ ℕ) (t : ℕ) (w : World ℕ)
        → All Typed s.submitted
        → All Typed (emit_state (λ n. n) dumps s t w).1.submitted)
    × ((s : StreamingSampler ℕ ℕ) (t : ℕ) (us : ℤ) (bytes : ℕ)
        → All Typed s.submitted
        → All Typed (read_ends as_ms (λ n. n) s t us bytes).submitted
          × All Typed (summary as_ms (λ n. n) s t).1.submitted)
    × ((s : PapyrusSampler ℕ) (now : ℕ) (t : ℕ) (vm : Option (ℕ × ℕ × ℕ × ℕ))
        → All Typed s.submitted
        → All Typed
            (round of_entry of_entry scaled no_test no_test unsorted 1 s now t vm).submitted)
    × ((t uptime : ℕ) (seq clients : ℕ) → Typed (Plugin.heartbeat t seq uptime clients))
    × ((t : ℕ) (version : String) → Typed (hello_record t (some version)))
records-Typed_example =
    records-Typed (λ n. n) doubles as_ms (λ n. n) of_entry of_entry scaled no_test no_test unsorted
      1
