-- ===== src/Samplers/Papyrus.antt =====
-- plugin/src/samplers/papyrus_sampler.cpp: the hook of the virtual machine's calls, the loop of the
-- snapshots, start and stop. What the virtual machine shows is an argument, and so are floating
-- point and partial_sort.
use text.Mathlib.Text.{◌==◌}
use skygraph.Prelude
use skygraph.Prelude.{
  ℕ, ◌+◌, ◌%◌, String, Bool, true, false, Option, none, some, List, [], ◌∷◌, ◌++◌, if◌then◌else◌,
}
use skygraph.Config.{HookIds}
use skygraph.Cpu.{ℤ, pos, negsuc, Accumulators, add_papyrus_us, get_enabled_mask, set_enabled_mask}
use skygraph.Attribution.{Entry, Table, add, snapshot_top_and_decay, reset}
use skygraph.Plugin.Records.{Value, Values, str, nat, num, object, array, end, field, nil, cons}
use skygraph.Samplers.Ticker.{Ticker, tick}

pub record PapyrusSampler (D : Type 0) : Type 0 where
  pub running : Bool
  pub hook_installed : Bool
  pub install_vm_hook : Bool
  pub top_n : ℕ
  pub hook_ids : HookIds
  pub period_sec : D
  pub ticker : Ticker
  pub mask_bits : ℕ
  pub acc : Accumulators
  pub table : Table
  pub submitted : List (Value D)

-- A frame of a script's stack: its owning object's name, if it has one.
pub data Stack : Type 0 where
  no_stack : Stack
  no_frame : Stack
  frame : Option String → Stack

unfoldable pub script_name_from_stack : Stack → String
script_name_from_stack no_stack = ""
script_name_from_stack no_frame = ""
script_name_from_stack (frame none) = ""
script_name_from_stack (frame (some name)) = name

-- `_snapshotHz` and `_topN` of the constructor, for a rate that is positive or not.
unfoldable pub top_n_of : ℕ → ℕ
top_n_of n = if Prelude.◌==◌ n 0 then 16 else n

unfoldable pub id_of : ℕ → ℕ → ℕ
id_of id default = if Prelude.◌==◌ id 0 then default else id

module _ {D : Type 0} where
  -- `thunk`, after a call that took `dt` microseconds.
  unfoldable pub thunk : PapyrusSampler D → ℤ → Stack → PapyrusSampler D
  unfolding add_papyrus_us script_name_from_stack add
  thunk s (negsuc us) stack = s
  thunk s (pos us) stack =
      let name = script_name_from_stack stack in
      let s' = record s { acc = add_papyrus_us (s.acc) (pos us) } in
      let named = record s' { table = add (s.table) name us } in
      if Prelude.ltb 0 us then (if name == "" then s' else named) else s

  -- `InstallHook`: `write` patches the call at the id of the running version and an offset.
  unfoldable pub install_hook : (ℕ → ℕ → ℕ → Bool) → PapyrusSampler D → Bool
  unfolding id_of
  install_hook write s =
      write (id_of (s.hook_ids.id_se) 98130) (id_of (s.hook_ids.id_ae) 104853) 127

  unfoldable pub start : (ℕ → ℕ → ℕ → Bool) → PapyrusSampler D → PapyrusSampler D
  unfolding install_hook get_enabled_mask set_enabled_mask
  start write s =
      let started = record s { running = true } in
      let hooked = record started {
        hook_installed = true;
        mask_bits = set_enabled_mask (record (get_enabled_mask (s.mask_bits)) { papyrus = true });
      } in
      let tried = if install_hook write s then hooked else started in
      if s.running then s else if s.install_vm_hook then tried else started

  unfoldable pub stop : PapyrusSampler D → PapyrusSampler D
  unfolding reset
  stop s = if s.running then record s { running = false; table = reset (s.table) } else s

  -- The stacks that run, those in the two overflow arrays, and those that wait for a latent return.
  unfoldable pub emit_vm_counters : PapyrusSampler D → D → Option (ℕ × ℕ × ℕ × ℕ) → PapyrusSampler D
  emit_vm_counters s t none = s
  emit_vm_counters s t (some (running, overflow1, overflow2, latent)) = record s {
    submitted =
        s.submitted
        ++ object (
            field "type" (str "papyrus.snapshot") (
              field "t" (num t) (
                field "active" (nat running) (
                  field "suspended" (nat ((overflow1 + overflow2) % 4294967296))
                    (field "latent" (nat latent) end)))))
          ∷ [];
  }

  -- The calls per second and the share of a frame, as floating point makes them of an entry.
  module _ (cps : Entry → D → D) (pct_frame : Entry → D → D) (scaled : D → ℕ → ℕ)
      (at_most_zero below_one : D → Bool) (partial_sort : ℕ → List Entry → List Entry)
      (decay : D) where
    unfoldable pub scripts_of : D → List Entry → Values D
    scripts_of period [] = nil
    scripts_of period (e ∷ es) =
        cons
          (object (
            field "name" (str (e.name)) (
              field "us_window" (nat (e.total_us)) (
                field "cps" (num (cps e period))
                  (field "pct_frame" (num (pct_frame e period)) end)))))
          (scripts_of period es)

    -- `decay` is 0.55.
    unfoldable pub emit_top_scripts : PapyrusSampler D → D → PapyrusSampler D
    unfolding scripts_of snapshot_top_and_decay
    emit_top_scripts s t =
        let (entries, table') =
          snapshot_top_and_decay scaled at_most_zero below_one partial_sort (s.table) (s.top_n)
            decay in
        record s {
          table = table';
          submitted =
              s.submitted
              ++ object (
                  field "type" (str "papyrus.top") (
                    field "t" (num t)
                      (field "scripts" (array (scripts_of (s.period_sec) entries)) end)))
                ∷ [];
        }

    -- A round of `SnapshotLoop`.
    unfoldable pub round : PapyrusSampler D → ℕ → D → Option (ℕ × ℕ × ℕ × ℕ) → PapyrusSampler D
    unfolding tick emit_vm_counters emit_top_scripts
    round s now t vm =
        let (fires, ticker') = tick (s.ticker) now in
        let s1 = emit_vm_counters s t vm in
        let s2 = if s.hook_installed then emit_top_scripts s1 t else s1 in
        if fires then record s2 { ticker = ticker' } else s
