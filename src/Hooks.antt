-- ===== src/Hooks.antt =====
-- plugin/src/samplers/subsystem_hooks.cpp: the gates that a hook passes before the engine is
-- patched, and the mask of the hooks that were installed. Parameters: the ids of the loaded Address
-- Library, the address of an id (`none`: it throws), the byte at an address of the memory `M`, and
-- the trampoline, which allocates and writes the call (`none`: it throws; the memory afterwards).
mod Safety
mod Tests
use skygraph.Prelude.{
  ℕ, zero, suc, ◌+◌, ◌%◌, ◌^◌, Bool, true, false, not, ◌||◌, Option, none, some, List, [], ◌∷◌,
  ◌==◌, if◌then◌else◌,
}
use skygraph.Config.{HookIds, CpuBreakdownConfig}
use skygraph.Cpu.{EnabledMask, get_enabled_mask, set_enabled_mask}

-- A hook's own ids, and which of its thunks to call.
pub record Target : Type 0 where
  pub default_se : ℕ
  pub default_ae : ℕ
  pub default_offset : ℕ
  pub thunk : ℕ

abbrev pub havok_target : Target
havok_target = record { default_se = 0; default_ae = 0; default_offset = 0; thunk = 0 }

abbrev pub ai_target : Target
ai_target = record { default_se = 0; default_ae = 0; default_offset = 0; thunk = 1 }

abbrev pub render_submit_target : Target
render_submit_target = record {
  default_se = 75461;
  default_ae = 77246;
  default_offset = 9;
  thunk = 2;
}

unfoldable pub pick_id : ℕ → ℕ → ℕ
pick_id override default = if not (override == 0) then override else default

unfoldable pub contains : List ℕ → ℕ → Bool
contains [] id = false
contains (x ∷ known) id = (x == id) || contains known id

unfoldable pub id_exists : List ℕ → ℕ → Bool
unfolding contains
id_exists known id = if id == 0 then false else contains known id

unfoldable pub active_id : Bool → HookIds → Target → ℕ
unfolding pick_id
active_id is_ae ids t =
    pick_id (if is_ae then ids.id_ae else ids.id_se) (if is_ae then t.default_ae else t.default_se)

unfoldable pub call_offset : HookIds → Target → ℕ
call_offset ids t = if not (ids.offset == 0) then ids.offset else t.default_offset

-- The originals are kept apart, by thunk.
pub record Engine (M : Type 0) : Type 0 where
  pub memory : M
  pub originals : ℕ → ℕ

module _ {M : Type 0} (is_ae : Bool) (known : List ℕ) (address : ℕ → Option ℕ) (byte_at : M → ℕ → ℕ)
    (write_call : M → ℕ → ℕ → Option ℕ × M) where
  -- The last gate and the patch, at a resolved address.
  unfoldable pub patch : M → ℕ → ℕ → ℕ × M
  patch m addr thunk =
      if not (byte_at m addr == 232)
      then (0, m)
      else (let (written, m') = write_call m addr thunk in
          elim written [ none ↦ (0, m') | some original ↦ (original, m') ])

  -- The original callee, or 0 if a gate fails; and the memory.
  unfoldable pub try_install_call_site : M → HookIds → Target → ℕ × M
  unfolding active_id call_offset id_exists patch
  try_install_call_site m ids t =
      let id = active_id is_ae ids t in
      if id == 0 then (0, m) else if not (id_exists known id) then (0, m) else elim (address id) [
        | none ↦ (0, m)
        | some base ↦ patch m ((base + call_offset ids t) % 2 ^ 64) t.thunk
      ]

  -- `InstallHavok`, `InstallAi` and `InstallRenderSubmit`.
  unfoldable pub install : Target → Engine M → HookIds → Bool × Engine M
  unfolding try_install_call_site
  install t e ids =
      let (original, m) = try_install_call_site e.memory ids t in
      if original == 0 then (false, record e { memory = m }) else (
        true,
        record e { memory = m; originals = λ i. if i == t.thunk then original else e.originals i },
      )

  unfoldable pub install_if : Bool → Target → Engine M → HookIds → Bool × Engine M
  unfolding install
  install_if asked t e ids = let done = install t e ids in if asked then done else (false, e)

  -- `InstallAll`, with the bits of the mask before and after.
  unfoldable pub install_all : CpuBreakdownConfig → ℕ → Engine M → ℕ × Engine M
  unfolding install_if get_enabled_mask set_enabled_mask
  install_all cfg bits e0 =
      let (havok, e1) = install_if cfg.havok_hook havok_target e0 cfg.havok_hook_ids in
      let (ai, e2) = install_if cfg.ai_hook ai_target e1 cfg.ai_hook_ids in
      let (render, e3) =
        install_if cfg.render_submit_hook render_submit_target e2 cfg.render_submit_hook_ids in
      let existing = get_enabled_mask bits in
      let mask : EnabledMask = record {
        havok = havok;
        ai = ai;
        render_submit = render;
        streaming = existing.streaming;
        papyrus = existing.papyrus;
      } in
      if not cfg.enabled then (bits, e0) else (set_enabled_mask mask, e3)
