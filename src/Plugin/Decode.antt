-- ===== src/Plugin/Decode.antt =====
-- What the viewer reads of a value that the plugin has built, written and sent: the JSON library of
-- both sides, as far as it is relied on, and `Get` of viewer/src/state/telemetry_store.cpp.
use skygraph.Prelude.{ℕ, ◌^◌, ◌<◌, ◌≡◌, refl, String, false, some, List, [], ◌∷◌}
use skygraph.Plugin.Records.{Value, Fields, Values, str, nat, num, object, array, nil, cons, lookup}
use skygraph.Store.Json.{Json, get, get_t, string_of, u32_of, float_of}

abbrev pub items : {D J : Type 0} → (Value D → J) → Values D → List J
items of nil = []
items of (cons v vs) = of v ∷ items of vs

-- `of` is the value after it was written and parsed, `float` and `double` are the numbers then.
pub record Decodes {D J F D' : Type 0} (view : Json J F D') (of : Value D → J) (float : D → F)
    (double : D → D') : Type 0 where
  pub find_object :
      (fs : Fields D) (key : String) (v : Value D)
      → lookup fs key ≡ some v
      → view.find (of (object fs)) key ≡ some (of v)
  pub str_null : (s : String) → view.is_null (of (str s)) ≡ false
  pub nat_null : (n : ℕ) → view.is_null (of (nat n)) ≡ false
  pub num_null : (d : D) → view.is_null (of (num d)) ≡ false
  pub get_str : (s : String) → view.get_string (of (str s)) ≡ some s
  pub get_nat : (n : ℕ) → n < 2 ^ 32 → view.get_u32 (of (nat n)) ≡ some n
  pub get_num_float : (d : D) → view.get_float (of (num d)) ≡ some (float d)
  pub get_num_double : (d : D) → view.get_double (of (num d)) ≡ some (double d)
  pub elements_array : (vs : Values D) → view.elements (of (array vs)) ≡ some (items of vs)

module _ {D J F D' : Type 0} (view : Json J F D') (of : Value D → J) (float : D → F)
    (double : D → D') (decodes : Decodes view of float double) where
  pub string_of-str :
      (fs : Fields D) (key s : String)
      → lookup fs key ≡ some (str s)
      → string_of view (of (object fs)) key ≡ s
  unfolding get
  string_of-str fs key s e =
      rw (decodes.find_object fs key (str s) e, decodes.str_null s, decodes.get_str s, get) refl

  pub u32_of-nat :
      (fs : Fields D) (key : String) (n : ℕ)
      → lookup fs key ≡ some (nat n)
      → n < 2 ^ 32
      → u32_of view (of (object fs)) key ≡ n
  unfolding get
  u32_of-nat fs key n e h =
      rw (decodes.find_object fs key (nat n) e, decodes.nat_null n, decodes.get_nat n h, get) refl

  pub float_of-num :
      (fs : Fields D) (key : String) (d : D)
      → lookup fs key ≡ some (num d)
      → float_of view (of (object fs)) key ≡ float d
  unfolding get
  float_of-num fs key d e =
      rw (decodes.find_object fs key (num d) e, decodes.num_null d, decodes.get_num_float d, get)
        refl

  pub get_t-num :
      (fs : Fields D) (d : D)
      → lookup fs "t" ≡ some (num d)
      → get_t view (of (object fs)) ≡ double d
  unfolding get_t get
  get_t-num fs d e =
      rw
        (
          decodes.find_object fs "t" (num d) e,
          decodes.num_null d,
          decodes.get_num_double d,
          get,
          get_t,
        )
        refl
