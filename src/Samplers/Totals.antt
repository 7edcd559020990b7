-- ===== src/Samplers/Totals.antt =====
-- The calls of the virtual machine that the hook of plugin/src/samplers/papyrus_sampler.cpp measures,
-- in the counter of plugin/src/samplers/cpu_breakdown.cpp and in the table of
-- plugin/src/samplers/papyrus_attribution.cpp.
use text.Mathlib.Text.{◌==◌}
use text.Mathlib.TextEquality.{eq_iff}
use skygraph.Prelude
use skygraph.Prelude.{
  ℕ, ◌+◌, ◌%◌, ◌^◌, ◌≡◌, ◌<◌, refl, sym, ap, ◌∙◌, String, Bool, true, false, List, [], ◌∷◌,
  if◌then◌else◌, arith, Bool-cases, inl, inr, if-all, if-cases,
}
use skygraph.Cpu.{ℤ, pos, negsuc, add_us, add_papyrus_us}
use skygraph.Attribution.{add}
use skygraph.Attribution.Usage.{time_of, time_of-add}
use skygraph.Samplers.Papyrus.{PapyrusSampler, Stack, script_name_from_stack, thunk}

module _ {D : Type 0} where
  unfoldable pub thunks : PapyrusSampler D → List (ℤ × Stack) → PapyrusSampler D
  unfolding thunk
  thunks s [] = s
  thunks s ((us, stack) ∷ calls) = thunks (thunk s us stack) calls

-- The time of all calls, and of those of a script; a call that took no time has none.
abbrev pub all_time : List (ℤ × Stack) → ℕ
all_time [] = 0
all_time ((pos us, stack) ∷ calls) = us + all_time calls
all_time ((negsuc us, stack) ∷ calls) = all_time calls

abbrev pub time_in : String → List (ℤ × Stack) → ℕ
time_in n [] = 0
time_in n ((pos us, stack) ∷ calls) =
    (if script_name_from_stack stack == n then us else 0) + time_in n calls
time_in n ((negsuc us, stack) ∷ calls) = time_in n calls

module _ {D : Type 0} where
  thunk-acc :
      (s : PapyrusSampler D) (us : ℕ) (stack : Stack)
      → (thunk s (pos us) stack).acc.papyrus_us % 2 ^ 64 ≡ (s.acc.papyrus_us + us) % 2 ^ 64
  unfolding thunk add_papyrus_us add_us
  thunk-acc s us stack =
      let name = script_name_from_stack stack in
      let s' = record s { acc = add_papyrus_us (s.acc) (pos us) } in
      let P =
        λ (x : PapyrusSampler D). x.acc.papyrus_us % 2 ^ 64 ≡ (s.acc.papyrus_us + us) % 2 ^ 64 in
      if-cases P (Prelude.ltb 0 us)
        (if name == "" then s' else record s' { table = add (s.table) name us }) s
        (λ e.
          let done : P s' = rw e (omega arith) in
          if-all P (name == "") s' (record s' { table = add (s.table) name us }) done done)
        (λ e. let z : us ≡ 0 = ground arith in omega (arith, z))

  thunk-table :
      (s : PapyrusSampler D) (us : ℕ) (stack : Stack) (n : String)
      → (n == "") ≡ false
      → time_of n (thunk s (pos us) stack).table % 2 ^ 64
        ≡ (time_of n s.table + (if script_name_from_stack stack == n then us else 0)) % 2 ^ 64
  unfolding thunk
  thunk-table s us stack n h =
      let name = script_name_from_stack stack in
      let s' = record s { acc = add_papyrus_us (s.acc) (pos us) } in
      let P = λ (x : PapyrusSampler D).
        time_of n x.table % 2 ^ 64 ≡ (time_of n s.table + (if name == n then us else 0)) % 2 ^ 64 in
      if-cases P (Prelude.ltb 0 us)
        (if name == "" then s' else record s' { table = add (s.table) name us }) s
        (λ e.
          if-cases P (name == "") s' (record s' { table = add (s.table) name us })
            (λ f.
              let g : (name == n) ≡ false =
                ground (arith, eq_iff name n, eq_iff name "", eq_iff n "", f, h) in
              rw g (omega arith))
            (λ f. time_of-add n (s.table) name us h))
        (λ e.
          let z : us ≡ 0 = ground arith in
          rw z (
            if-all (λ k. time_of n s.table % 2 ^ 64 ≡ (time_of n s.table + k) % 2 ^ 64) (name == n)
              0 0 (omega arith) (omega arith)))

  thunk_negsuc : (s : PapyrusSampler D) (us : ℕ) (stack : Stack) → thunk s (negsuc us) stack ≡ s
  unfolding thunk
  thunk_negsuc s us stack = refl

  -- After any calls of the virtual machine: the Papyrus counter has gone up by the time of all of
  -- them, and a script (with a name) has in the table what it had and the time of the calls whose
  -- frame it owned, each modulo 2^64. Calls that took no time add to neither.
  pub thunks-time :
      (s : PapyrusSampler D) (calls : List (ℤ × Stack)) (n : String)
      → (n == "") ≡ false
      → ((thunks s calls).acc.papyrus_us % 2 ^ 64 ≡ (s.acc.papyrus_us + all_time calls) % 2 ^ 64)
        × (time_of n (thunks s calls).table % 2 ^ 64
            ≡ (time_of n s.table + time_in n calls) % 2 ^ 64)
  unfolding thunks
  thunks-time s [] n h = (omega arith, omega arith)
  thunks-time s ((pos us, stack) ∷ calls) n h =
      let (p, q) = thunks-time (thunk s (pos us) stack) calls n h in
      (omega (arith, p, thunk-acc s us stack), omega (arith, q, thunk-table s us stack n h))
  thunks-time s ((negsuc us, stack) ∷ calls) n h =
      let (p, q) = thunks-time (thunk s (negsuc us) stack) calls n h in
      let e = thunk_negsuc s us stack in
      (
        p ∙ ap (λ (r : PapyrusSampler D). (r.acc.papyrus_us + all_time calls) % 2 ^ 64) e,
        q ∙ ap (λ (r : PapyrusSampler D). (time_of n r.table + time_in n calls) % 2 ^ 64) e,
      )
