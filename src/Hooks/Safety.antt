-- ===== src/Hooks/Safety.antt =====
-- The gates of plugin/src/samplers/subsystem_hooks.cpp, and the mask that they lead to.
use skygraph.Prelude.{
  not, ap, if◌then◌else◌, ℕ, ◌+◌, ◌%◌, ◌^◌, ◌≡◌, ◌≢◌, refl, ◌∙◌, ◌⊎◌, inl, inr, Bool, true, false,
  Option, none, some, List, [], ◌∷◌, ◌==◌, arith, ==_iff, Bool-cases, Option-cases,
}
use skygraph.Cpu.{get_enabled_mask}
use skygraph.Cpu.Mask.{get_set_mask}
use skygraph.Config.{HookIds, CpuBreakdownConfig}
use skygraph.Hooks.{
  Target, havok_target, ai_target, render_submit_target, contains, id_exists, active_id, pick_id,
  call_offset, patch, try_install_call_site, Engine, install_if, install_all,
}

-- An id is in the library.
abbrev pub In : ℕ → List ℕ → Type 0
In id [] = ⊥
In id (x ∷ known) = (x ≡ id) ⊎ In id known

contains-In : (known : List ℕ) (id : ℕ) → contains known id ≡ true → In id known
unfolding contains
contains-In [] id e = cc e
contains-In (x ∷ known) id e = elim (Bool-cases (x == id)) [
  | inl k ↦ inl (ground arith)
  | inr k ↦ inr (contains-In known id (ground arith))
]

id_exists-In : (known : List ℕ) (id : ℕ) → id_exists known id ≡ true → (id ≢ 0) × In id known
unfolding id_exists
id_exists-In known id e = elim (Bool-cases (id == 0)) [
  | inl k ↦ ground arith
  | inr k ↦ (ground arith, contains-In known id (ground arith))
]

-- An override of the configuration, or the default if it is 0.
abbrev pub or_default : ℕ → ℕ → ℕ
or_default override default = if override == 0 then default else override

-- The id that a hook is to patch, and the offset from its address.
abbrev pub wanted_id : Bool → HookIds → Target → ℕ
wanted_id true ids t = or_default (ids.id_ae) (t.default_ae)
wanted_id false ids t = or_default (ids.id_se) (t.default_se)

abbrev pub wanted_offset : HookIds → Target → ℕ
wanted_offset ids t = or_default (ids.offset) (t.default_offset)

or_default_lem : (a b : ℕ) → (if not (a == 0) then a else b) ≡ or_default a b
or_default_lem a b = elim (Bool-cases (a == 0)) [ inl e ↦ rw e refl | inr e ↦ rw e refl ]

active_id_lem :
    (is_ae : Bool) (ids : HookIds) (t : Target) → active_id is_ae ids t ≡ wanted_id is_ae ids t
unfolding active_id pick_id
active_id_lem true ids t = or_default_lem (ids.id_ae) (t.default_ae)
active_id_lem false ids t = or_default_lem (ids.id_se) (t.default_se)

call_offset_lem : (ids : HookIds) (t : Target) → call_offset ids t ≡ wanted_offset ids t
unfolding call_offset
call_offset_lem ids t = or_default_lem (ids.offset) (t.default_offset)

module _ {M : Type 0} (is_ae : Bool) (known : List ℕ) (address : ℕ → Option ℕ) (byte_at : M → ℕ → ℕ)
    (write_call : M → ℕ → ℕ → Option ℕ × M) where
  -- The callee that a patch gives (0 if it throws) and the memory that it leaves.
  abbrev pub patched : Option ℕ × M → ℕ × M
  patched (none, m) = (0, m)
  patched (some original, m) = (original, m)

  -- The engine's memory is untouched, or it was patched at a call instruction of a known id.
  abbrev pub Safe : M → HookIds → Target → ℕ × M → Type 0
  Safe m ids t r =
      (r ≡ (0, m))
      ⊎ ((id : ℕ) × (base : ℕ) × (id ≡ wanted_id is_ae ids t)
          × (id ≢ 0)
          × In id known
          × (address id ≡ some base)
          × (byte_at m ((base + wanted_offset ids t) % 2 ^ 64) ≡ 232)
          × (r ≡ patched (write_call m ((base + wanted_offset ids t) % 2 ^ 64) t.thunk)))

  patch-other :
      (m : M) (addr thunk : ℕ)
      → (byte_at m addr == 232) ≡ false
      → patch is_ae known address byte_at write_call m addr thunk ≡ (0, m)
  unfolding patch
  patch-other m addr thunk e = rw (e, patch) refl

  patched-write :
      (w : Option ℕ × M)
      → elim (w.0) as (λ x. ℕ × M) [ none ↦ (0, w.1) | some original ↦ (original, w.1) ] ≡ patched w
  patched-write (none, m) = refl
  patched-write (some original, m) = refl

  patch-call :
      (m : M) (addr thunk : ℕ)
      → (byte_at m addr == 232) ≡ true
      → patch is_ae known address byte_at write_call m addr thunk
        ≡ patched (write_call m addr thunk)
  unfolding patch
  patch-call m addr thunk e = rw (e, patch) (patched-write (write_call m addr thunk))

  abbrev tried : M → HookIds → Target → ℕ × M
  tried = try_install_call_site is_ae known address byte_at write_call

  tried-zero :
      (m : M) (ids : HookIds) (t : Target)
      → (active_id is_ae ids t == 0) ≡ true
      → tried m ids t ≡ (0, m)
  unfolding try_install_call_site
  tried-zero m ids t e = rw (e, try_install_call_site) refl

  tried-unknown :
      (m : M) (ids : HookIds) (t : Target)
      → (active_id is_ae ids t == 0) ≡ false
      → id_exists known (active_id is_ae ids t) ≡ false
      → tried m ids t ≡ (0, m)
  unfolding try_install_call_site
  tried-unknown m ids t e f = rw (f, e, try_install_call_site) refl

  tried-unresolved :
      (m : M) (ids : HookIds) (t : Target)
      → (active_id is_ae ids t == 0) ≡ false
      → id_exists known (active_id is_ae ids t) ≡ true
      → address (active_id is_ae ids t) ≡ none
      → tried m ids t ≡ (0, m)
  unfolding try_install_call_site
  tried-unresolved m ids t e f g = rw (f, e, g, try_install_call_site) refl

  tried-patch :
      (m : M) (ids : HookIds) (t : Target) (base : ℕ)
      → (active_id is_ae ids t == 0) ≡ false
      → id_exists known (active_id is_ae ids t) ≡ true
      → address (active_id is_ae ids t) ≡ some base
      → tried m ids t
        ≡ patch is_ae known address byte_at write_call m
            ((base + wanted_offset ids t) % 2 ^ 64)
            t.thunk
  unfolding try_install_call_site
  tried-patch m ids t base e f g =
      rw (f, e, g, try_install_call_site)
        (ap (λ o. patch is_ae known address byte_at write_call m ((base + o) % 2 ^ 64) t.thunk)
          (call_offset_lem ids t))

  -- Whatever the ids and offsets of the configuration are: either the memory is as it was and the hook
  -- counts as not installed, or one call was written, exactly where the address of the wanted id
  -- (that of the configuration, or the default if it is 0), which the loaded library knows, plus the
  -- wanted offset, held a call instruction (0xE8). Then the memory is what the trampoline
  -- left, and the hook counts as installed with the callee that it gave, or as not installed if it
  -- threw.
  pub try_install-Safe :
      (m : M) (ids : HookIds) (t : Target)
      → Safe m ids t (try_install_call_site is_ae known address byte_at write_call m ids t)
  try_install-Safe m ids t = elim (Bool-cases (active_id is_ae ids t == 0)) [
    | inl e ↦ inl (tried-zero m ids t e)
    | inr e ↦ elim (Bool-cases (id_exists known (active_id is_ae ids t))) [
      | inr f ↦ inl (tried-unknown m ids t e f)
      | inl f ↦ elim (Option-cases (address (active_id is_ae ids t))) [
        | inl g ↦ inl (tried-unresolved m ids t e f g)
        | inr (base, g) ↦
            let site = (base + wanted_offset ids t) % 2 ^ 64 in
            let (ne, known_id) = id_exists-In known (active_id is_ae ids t) f in
            elim (Bool-cases (byte_at m site == 232)) [
              | inl h ↦ inr (
                active_id is_ae ids t,
                base,
                active_id_lem is_ae ids t,
                ne,
                known_id,
                g,
                (==_iff (byte_at m site) 232).0 h,
                tried-patch m ids t base e f g ∙ patch-call m site t.thunk h,
              )
              | inr h ↦ inl (tried-patch m ids t base e f g ∙ patch-other m site t.thunk h)
            ]
      ]
    ]
  ]

  -- With the breakdown enabled, the mask that is read afterwards names the hooks that the
  -- configuration asked for and that were installed, one after the other, and keeps the Papyrus and
  -- streaming bits that were there.
  pub install_all-mask :
      (cfg : CpuBreakdownConfig) (bits : ℕ) (e : Engine M)
      → cfg.enabled ≡ true
      → let put = install_if is_ae known address byte_at write_call in
        let first = put cfg.havok_hook havok_target e cfg.havok_hook_ids in
        let second = put cfg.ai_hook ai_target first.1 cfg.ai_hook_ids in
        let third =
          put cfg.render_submit_hook render_submit_target second.1 cfg.render_submit_hook_ids in
        get_enabled_mask (install_all is_ae known address byte_at write_call cfg bits e).0
        ≡ record {
          havok = first.0;
          ai = second.0;
          render_submit = third.0;
          streaming = (get_enabled_mask bits).streaming;
          papyrus = (get_enabled_mask bits).papyrus;
        }
  unfolding install_all
  install_all-mask cfg bits e on = rw (on, install_all) (get_set_mask _)
