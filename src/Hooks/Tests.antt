-- ===== src/Hooks/Tests.antt =====
-- The theorems on the hooks at a small memory: a call instruction at 109 and nowhere else.
use skygraph.Prelude.{
  ℕ, ◌≡◌, refl, true, false, Option, none, some, List, [], ◌∷◌, ◌==◌, if◌then◌else◌,
}
use skygraph.Config.{HookIds, CpuBreakdownConfig}
use skygraph.Hooks.{render_submit_target, Engine, try_install_call_site}
use skygraph.Hooks.Safety.{Safe, try_install-Safe}

abbrev address_of : ℕ → Option ℕ
address_of id = if id == 75461 then some 100 else none

abbrev byte_of : List ℕ → ℕ → ℕ
byte_of patched addr = if addr == 109 then 232 else 72

abbrev written : List ℕ → ℕ → ℕ → Option ℕ × List ℕ
written patched addr thunk = (some 500, addr ∷ patched)

abbrev no_ids : HookIds
no_ids = record { id_se = 0; id_ae = 0; offset = 0 }

abbrev engine : Engine (List ℕ)
engine = record { memory = []; originals = λ i. 0 }

abbrev all_hooks : CpuBreakdownConfig
all_hooks = record {
  enabled = true;
  havok_hook = true;
  ai_hook = true;
  render_submit_hook = true;
  main_loop_hook = true;
  havok_hook_ids = no_ids;
  ai_hook_ids = no_ids;
  render_submit_hook_ids = no_ids;
}

try_install-default :
    try_install_call_site false
      (75461 ∷ [])
      address_of
      byte_of
      written
      []
      no_ids
      render_submit_target
    ≡ (500, 109 ∷ [])
unfolding try_install_call_site
try_install-default = refl

try_install-Safe_example :
    Safe false (75461 ∷ []) address_of byte_of written [] no_ids render_submit_target (
      try_install_call_site false
        (75461 ∷ [])
        address_of
        byte_of
        written
        []
        no_ids
        render_submit_target)
try_install-Safe_example =
    try_install-Safe false (75461 ∷ []) address_of byte_of written [] no_ids render_submit_target
