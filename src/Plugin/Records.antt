-- ===== src/Plugin/Records.antt =====
-- The JSON values that the plugin builds with nlohmann's initializer lists; `D` is a `double`.
use text.Mathlib.Text.{◌==◌}
use skygraph.Prelude.{ℕ, String, Option, none, some, if◌then◌else◌}

mutual
  pub data Value (D : Type 0) : Type 0 where
    null : Value D
    str : String → Value D
    nat : ℕ → Value D
    -- -1, -2 and so on
    negative : ℕ → Value D
    num : D → Value D
    object : Fields D → Value D
    array : Values D → Value D

  pub data Fields (D : Type 0) : Type 0 where
    end : Fields D
    field : String → Value D → Fields D → Fields D

  pub data Values (D : Type 0) : Type 0 where
    nil : Values D
    cons : Value D → Values D → Values D

-- The member of an object.
unfoldable pub lookup : {D : Type 0} → Fields D → String → Option (Value D)
lookup end key = none
lookup (field k v fs) key = let rest = lookup fs key in if k == key then some v else rest

-- The operations of the JSON library and of paths that the plugin calls; one that throws a
-- std::exception is `none`. `value` is `j.value(key, default)` for strings.
pub record PluginJson (D J P : Type 0) : Type 0 where
  pub parse : String → Option J
  pub value : J → String → String → Option String
  pub dump : Value D → Option String
  pub path_string : P → Option String
