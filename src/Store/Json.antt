-- ===== src/Store/Json.antt =====
-- What viewer/src/state/telemetry_store.cpp uses of nlohmann/json and of floating point, and its
-- `Get`.
use skygraph.Prelude.{ℕ, String, Bool, true, false, Option, none, some, List}

-- `find`, `is_null`, the elements (when it is an array), and `get<T>` (`none` when it throws).
pub record Json (J F D : Type 0) : Type 0 where
  pub find : J → String → Option J
  pub is_null : J → Bool
  pub elements : J → Option (List J)
  pub get_string : J → Option String
  pub get_u32 : J → Option ℕ
  pub get_u64 : J → Option ℕ
  pub get_float : J → Option F
  pub get_double : J → Option D
  pub object : J
  pub zero_float : F
  pub zero_double : D
  pub add : D → D → D
  pub of_u64 : ℕ → D

module _ {J F D : Type 0} (json : Json J F D) where
  -- `Get<T>`: the default on a missing key, on null and when the conversion throws.
  unfoldable pub get {ℓ} : {T : Type ℓ} → (J → Option T) → J → String → T → T
  get convert j key default = elim (json.find j key) [
    | none ↦ default
    | some v ↦ elim (json.is_null v) [
      | true ↦ default
      | false ↦ elim (convert v) [ none ↦ default | some x ↦ x ]
    ]
  ]

  unfoldable pub get_t : J → D
  unfolding get
  get_t j = get json.get_double j "t" json.zero_double

  abbrev pub string_of : J → String → String
  string_of j key = get json.get_string j key ""

  abbrev pub u32_of : J → String → ℕ
  u32_of j key = get json.get_u32 j key 0

  abbrev pub u64_of : J → String → ℕ
  u64_of j key = get json.get_u64 j key 0

  abbrev pub float_of : J → String → F
  float_of j key = get json.get_float j key json.zero_float
