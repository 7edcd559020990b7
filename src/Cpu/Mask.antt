-- ===== src/Cpu/Mask.antt =====
-- The mask of the installed hooks, packed into bits and read back.
use skygraph.Prelude.{◌≡◌, refl, Bool, true, false}
use skygraph.Cpu.{EnabledMask, get_enabled_mask, set_enabled_mask}

abbrev mask_of : Bool → Bool → Bool → Bool → Bool → EnabledMask
mask_of h a r s p = record { havok = h; ai = a; render_submit = r; streaming = s; papyrus = p }

packed :
    (h a r s p : Bool) → get_enabled_mask (set_enabled_mask (mask_of h a r s p)) ≡ mask_of h a r s p
unfolding get_enabled_mask set_enabled_mask
packed true true true true true = refl
packed true true true true false = refl
packed true true true false true = refl
packed true true true false false = refl
packed true true false true true = refl
packed true true false true false = refl
packed true true false false true = refl
packed true true false false false = refl
packed true false true true true = refl
packed true false true true false = refl
packed true false true false true = refl
packed true false true false false = refl
packed true false false true true = refl
packed true false false true false = refl
packed true false false false true = refl
packed true false false false false = refl
packed false true true true true = refl
packed false true true true false = refl
packed false true true false true = refl
packed false true true false false = refl
packed false true false true true = refl
packed false true false true false = refl
packed false true false false true = refl
packed false true false false false = refl
packed false false true true true = refl
packed false false true true false = refl
packed false false true false true = refl
packed false false true false false = refl
packed false false false true true = refl
packed false false false true false = refl
packed false false false false true = refl
packed false false false false false = refl

-- The mask that is read is the one that was set.
pub get_set_mask : (m : EnabledMask) → get_enabled_mask (set_enabled_mask m) ≡ m
get_set_mask m = packed m.havok m.ai m.render_submit m.streaming m.papyrus
