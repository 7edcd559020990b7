-- ===== src/Samplers/Memory.antt =====
-- plugin/src/samplers/memory_sampler.cpp. `F` is a `float`, `D` a `double`; the conversions and the
-- quotient are parameters, and so is what GetProcessMemoryInfo, the video adapter,
-- GlobalMemoryStatusEx and GetPerformanceInfo answer.
use skygraph.Prelude.{
  ℕ, ◌+◌, ◌-◌, ◌%◌, ◌^◌, ◌≤◌, ◌<◌, ◌≡◌, ◌⊎◌, inl, inr, Bool, not, ◌||◌, Option, none, some, List,
  [], ◌∷◌, ◌++◌, ltb, ◌==◌, if◌then◌else◌, arith, Bool-cases, ltb→lt,
}
use skygraph.Frame.Cache.{LatestCache, update_memory, update_pressure}
use skygraph.Plugin.Records.{Value, str, num, object, end, field}
use skygraph.Samplers.Ticker.{Ticker, tick}

pub record Doubles (F D : Type 0) : Type 0 where
  pub zero : D
  -- bytes to megabytes, a double to a float and back, as JSON does it
  pub to_mb : ℕ → D
  pub narrow : D → F
  pub widen : F → D
  -- faults, and the nanoseconds between two samples
  pub per_second : ℕ → ℕ → D

pub record MemorySampler (F D : Type 0) : Type 0 where
  pub mem : Ticker
  pub pressure : Ticker
  -- the count and the time of the last sample; a time of 0 is "none"
  pub last_page_fault_count : ℕ
  pub last_page_fault_time : ℕ
  pub cache : LatestCache F D
  pub submitted : List (Value D)

-- The period in nanoseconds, of a rate that is positive (with its period) or not.
unfoldable pub period_of : Option ℕ → ℕ
period_of none = 1000000000
period_of (some period) = period

unfoldable pub start_loop :
    {F D : Type 0} → Option ℕ → Option ℕ → ℕ → LatestCache F D → MemorySampler F D
unfolding period_of
start_loop mem_period pressure_period now cache = record {
  mem = record { period = period_of mem_period; next = now };
  pressure = record { period = period_of pressure_period; next = now };
  last_page_fault_count = 0;
  last_page_fault_time = 0;
  cache = cache;
  submitted = [];
}

-- `currentFaults - _lastPageFaultCount` of 64-bit words. Windows counts in 32 bits.
unfoldable pub delta_faults : ℕ → ℕ → ℕ
delta_faults current last = (current + 2 ^ 64 - last) % 2 ^ 64

-- The usage and the budget of the video memory, if there is an adapter that answers.
abbrev pub Vram : Type 0
Vram = Option (ℕ × ℕ)

-- What the operating system answers in a round.
pub record Observation (D : Type 0) : Type 0 where
  pub clock : ℕ
  pub wall : D
  pub working_set : ℕ
  pub private_usage : ℕ
  pub vram : Vram
  pub faults : ℕ
  pub commit : Option (ℕ × ℕ)

module _ {F D : Type 0} (fl : Doubles F D) where
  abbrev pub memory_record : D → F → F → F → F → Value D
  memory_record t ws priv vu vb = object (
      field "type" (str "memory") (
        field "t" (num t) (
          field "working_set_mb" (num (fl.widen ws)) (
            field "private_mb" (num (fl.widen priv)) (
              field "vram_used_mb" (num (fl.widen vu))
                (field "vram_budget_mb" (num (fl.widen vb)) end))))))

  unfoldable pub emit_memory : MemorySampler F D → D → ℕ → ℕ → Vram → MemorySampler F D
  unfolding update_memory
  emit_memory s t working_set private_usage vram =
      let ws = fl.narrow (fl.to_mb working_set) in
      let priv = fl.narrow (fl.to_mb private_usage) in
      let vu = fl.narrow (elim vram [ none ↦ fl.zero | some v ↦ fl.to_mb (v.0) ]) in
      let vb = fl.narrow (elim vram [ none ↦ fl.zero | some v ↦ fl.to_mb (v.1) ]) in
      record s {
        cache = update_memory (s.cache) ws priv vu vb;
        submitted = s.submitted ++ memory_record t ws priv vu vb ∷ [];
      }

  -- The rate since the last sample.
  unfoldable pub faults_per_sec : MemorySampler F D → ℕ → ℕ → D
  unfolding delta_faults
  faults_per_sec s count now =
      if not (s.last_page_fault_time == 0)
      then (if ltb (s.last_page_fault_time) now
          then fl.per_second (delta_faults count (s.last_page_fault_count))
              (now - s.last_page_fault_time)
          else fl.zero)
      else fl.zero

  -- The committed bytes and their limit, if GetPerformanceInfo answers.
  unfoldable pub emit_pressure : MemorySampler F D → D → ℕ → ℕ → Option (ℕ × ℕ) → MemorySampler F D
  unfolding faults_per_sec update_pressure
  emit_pressure s t count now commit =
      let rate = faults_per_sec s count now in
      let charge : D = elim commit [ none ↦ fl.zero | some c ↦ fl.to_mb (c.0) ] in
      let limit : D = elim commit [ none ↦ fl.zero | some c ↦ fl.to_mb (c.1) ] in
      record s {
        last_page_fault_count = count;
        last_page_fault_time = now;
        cache = update_pressure (s.cache) (fl.narrow rate) (fl.narrow charge) (fl.narrow limit);
        submitted =
            s.submitted
            ++ object (
                field "type" (str "memory.pressure") (
                  field "t" (num t) (
                    field "page_faults_per_sec" (num rate) (
                      field "commit_charge_mb" (num charge)
                        (field "commit_limit_mb" (num limit) end)))))
              ∷ [];
      }

  -- A round of `Loop`; the Boolean is `fired`.
  unfoldable pub round : MemorySampler F D → Observation D → Bool × MemorySampler F D
  unfolding tick emit_memory emit_pressure
  round s o =
      let (mem_fires, mem') = tick (s.mem) (o.clock) in
      let s1 =
        if mem_fires
        then emit_memory s (o.wall) (o.working_set) (o.private_usage) (o.vram)
        else s in
      let (pressure_fires, pressure') = tick (s.pressure) (o.clock) in
      let s2 =
        if pressure_fires then emit_pressure s1 (o.wall) (o.faults) (o.clock) (o.commit) else s1 in
      (mem_fires || pressure_fires, record s2 { mem = mem'; pressure = pressure' })

-- Between two samples the 32-bit counter of Windows goes up by `d`. The difference that is taken is
-- `d`, unless the counter has wrapped: then it is `d` and almost 2^64 more.
delta_faults_lem :
    (last d : ℕ)
    → last < 2 ^ 32
    → d < 2 ^ 32
    → ((last + d < 2 ^ 32) × (delta_faults ((last + d) % 2 ^ 32) last ≡ d))
      ⊎ ((2 ^ 32 ≤ last + d) × (delta_faults ((last + d) % 2 ^ 32) last ≡ 2 ^ 64 - 2 ^ 32 + d))
unfolding delta_faults
delta_faults_lem last d h k = elim (Bool-cases (ltb (last + d) (2 ^ 32))) [
  | inl e ↦ inl (ltb→lt (last + d) (2 ^ 32) e, omega (arith, ltb→lt (last + d) (2 ^ 32) e))
  | inr e ↦ let over : 2 ^ 32 ≤ last + d = ground arith in inr (over, omega arith)
]
