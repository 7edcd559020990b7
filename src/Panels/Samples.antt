-- ===== src/Panels/Samples.antt =====
-- The JSON library of the stutter panel on the values of the plugin themselves: test data.
use mathlib.Core.List.{Memᴰ}
use mathlib.Core.Option.{none-ne-some}
use text.Mathlib.Text.{◌==◌}
use text.Mathlib.TextEquality.{eq_iff}
use skygraph.Prelude.{
  ℕ, ◌≡◌, ◌∙◌, refl, ap, String, Option, none, some, List, [], ◌∷◌, All, if-cases,
}
use skygraph.Plugin.Records.{
  Value, Fields, null, str, nat, negative, num, object, array, end, field, lookup,
}
use skygraph.Plugin.Samples.{same, member_of, string_in, values_in, number_in}
use skygraph.Panels.Details.{DetailJson}
use skygraph.Panels.Parts.{FromField, DetailDecodes}

abbrev entry : String → Option (Value ℕ) → List (String × Value ℕ) → List (String × Value ℕ)
entry key none ms = ms
entry key (some v) ms = (key, v) ∷ ms

-- The fields of the second, with their values in the first.
abbrev entries : Fields ℕ → Fields ℕ → List (String × Value ℕ)
entries fs end = []
entries fs (field key v gs) = entry key (lookup fs key) (entries fs gs)

abbrev iterated : Value ℕ → Option (List (String × Value ℕ))
iterated null = none
iterated (str s) = none
iterated (nat n) = none
iterated (negative n) = none
iterated (num d) = none
iterated (object fs) = some (entries fs fs)
iterated (array vs) = none

abbrev or_zero : Option (Value ℕ) → Option ℕ
or_zero none = some 0
or_zero (some v) = number_in v

abbrev or_empty : Option (Value ℕ) → Option String
or_empty none = some ""
or_empty (some v) = string_in v

abbrev pub details : DetailJson (Value ℕ) ℕ
details = record {
  members = iterated;
  find = member_of;
  as_string = string_in;
  as_array = values_in;
  get_float = number_in;
  get_u32 = number_in;
  value_u32 = λ v key. or_zero (member_of v key);
  value_u64 = λ v key. or_zero (member_of v key);
  value_string = λ v key. or_empty (member_of v key);
}

entry-FromField :
    (fs : Fields ℕ) (key : String) (o : Option (Value ℕ)) (ms : List (String × Value ℕ))
    → lookup fs key ≡ o
    → All (FromField same fs) ms
    → All (FromField same fs) (entry key o ms)
entry-FromField fs key none ms e h = h
entry-FromField fs key (some v) ms e h = ((v, e, refl), h)

entries-FromField : (fs gs : Fields ℕ) → All (FromField same fs) (entries fs gs)
entries-FromField fs end = tt
entries-FromField fs (field key v gs) =
    entry-FromField fs key (lookup fs key) (entries fs gs) refl (entries-FromField fs gs)

entry-head :
    (k key : String) (o : Option (Value ℕ)) (ms : List (String × Value ℕ)) (v : Value ℕ)
    → k ≡ key
    → o ≡ some v
    → Memᴰ (key, v) (entry k o ms)
entry-head k key none ms v same e = absurd (none-ne-some v e)
entry-head k key (some x) ms v same e =
    let together : ◌≡◌ {A = String × Value ℕ} (key, v) (k, x) = cc (same, e) in Memᴰ.head together

entry-tail :
    (key : String) (o : Option (Value ℕ)) (ms : List (String × Value ℕ)) (m : String × Value ℕ)
    → Memᴰ m ms
    → Memᴰ m (entry key o ms)
entry-tail key none ms m h = h
entry-tail key (some v) ms m h = Memᴰ.tail h

entries-present :
    (fs gs : Fields ℕ) (key : String) (v w : Value ℕ)
    → lookup fs key ≡ some v
    → lookup gs key ≡ some w
    → Memᴰ (key, v) (entries fs gs)
unfolding lookup
entries-present fs end key v w e p = absurd (none-ne-some w p)
entries-present fs (field k x gs) key v w e p =
    if-cases (λ o. o ≡ some w → Memᴰ (key, v) (entries fs (field k x gs))) (k == key) (some x)
      (lookup gs key)
      (λ same q.
        let k_key = (eq_iff k key).0 same in
        entry-head k key (lookup fs k) (entries fs gs) v k_key (ap (lookup fs) k_key ∙ e))
      (λ other q.
        entry-tail k (lookup fs k) (entries fs gs) (key, v) (entries-present fs gs key v w e q))
      p

pub details-Decodes : DetailDecodes details same (λ n. n)
details-Decodes = record {
  members_object = λ fs.
      (entries fs fs, refl, entries-FromField fs fs, λ key v e. entries-present fs fs key v v e e);
  find_object = λ fs key v e. e;
  string_str = λ s. refl;
  array_array = λ vs. refl;
  float_num = λ d. refl;
  u32_nat = λ n h. refl;
  value_u32_nat = λ fs key n h e. ap or_zero e;
  value_u64_nat = λ fs key n h e. ap or_zero e;
  value_string_str = λ fs key s e. ap or_empty e;
}
