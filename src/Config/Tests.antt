-- ===== src/Config/Tests.antt =====
-- The theorem on the configuration at a file that is a list of paths with a number at each.
use text.Mathlib.Text.{◌==◌}
use skygraph.Prelude.{
  ℕ, ◌≡◌, refl, String, Bool, true, false, Option, none, some, List, [], ◌∷◌, if◌then◌else◌, ltb,
}
use skygraph.Config.Parse.{ConfigJson, parse_json}

abbrev Tree : Type 0
Tree = List (List String × ℕ)

abbrev under : String → Tree → Tree
under k [] = []
under k (([], n) ∷ t) = under k t
under k ((j ∷ path, n) ∷ t) = if j == k then (path, n) ∷ under k t else under k t

abbrev found : Tree → Option Tree
found [] = none
found (x ∷ t) = some (x ∷ t)

abbrev number : Tree → Option ℕ
number [] = none
number (([], n) ∷ t) = some n
number ((j ∷ path, n) ∷ t) = none

abbrev flag : Option ℕ → Option Bool
flag none = none
flag (some n) = some (ltb 0 n)

abbrev json : ConfigJson Tree ℕ
json = record {
  find = λ t k. found (under k t);
  is_null = λ t. false;
  is_object = λ t. true;
  get_bool = λ t. flag (number t);
  get_int = number;
  get_u64 = number;
  get_double = number;
  get_string = λ t. none;
  num = λ n. n;
}

abbrev file : Tree
file =
    (("log" ∷ "level" ∷ [], 3)
      ∷ ("transport" ∷ "writer_queue_capacity" ∷ [], 64)
      ∷ ("samplers" ∷ "memory" ∷ "enabled" ∷ [], 0)
      ∷ [])

capacity_read : (parse_json json file).transport.writer_queue_capacity ≡ 64
unfolding parse_json
capacity_read = refl
