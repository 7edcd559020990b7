-- ===== src/Store/Tests.antt =====
-- The theorems on the store with a small stand-in for JSON: a value is a list of members, or one
-- member without a name.
use text.Mathlib.Text.{◌==◌}
use skygraph.Prelude.{
  ℕ, zero, suc, ◌+◌, ◌%◌, ◌^◌, ◌≡◌, refl, ◌⊎◌, String, false, Option, none, some, List, [], ◌∷◌,
  ◌++◌, map, if◌then◌else◌, arith,
}
use skygraph.Store.{TelemetryStore, frame_ring}
use skygraph.Store.Json.{Json, get}
use skygraph.Store.Rings.{newest}
use skygraph.Store.Decode.{Arg}
use skygraph.Store.Ingest.{kind_of, done, threw, ingest}
use skygraph.Store.Bounds.{Ok, After, ingest-Ok}
use skygraph.Store.Errors.{Throws, counted, ingest-Throws}
use skygraph.Store.Frames.{ingest_all, frames_of, ingest_all-frames}

data Scalar : Type 0 where
  number : ℕ → Scalar
  str : String → Scalar
  array : List ℕ → Scalar

abbrev Value : Type 0
Value = List (String × Scalar)

abbrev find_member : Value → String → Option Value
find_member [] k = none
find_member ((j, v) ∷ vs) k = if j == k then some (("", v) ∷ []) else find_member vs k

abbrev as_number : Value → Option ℕ
as_number ((k, number n) ∷ vs) = some n
as_number ((k, str s) ∷ vs) = none
as_number ((k, array ns) ∷ vs) = none
as_number [] = none

abbrev as_string : Value → Option String
as_string ((k, number n) ∷ vs) = none
as_string ((k, str s) ∷ vs) = some s
as_string ((k, array ns) ∷ vs) = none
as_string [] = none

-- A zero in an array stands for something that get<float> throws for.
abbrev element : ℕ → Value
element zero = ("", str "?") ∷ []
element (suc n) = ("", number n) ∷ []

abbrev as_array : Value → Option (List Value)
as_array ((k, number n) ∷ vs) = none
as_array ((k, str s) ∷ vs) = none
as_array ((k, array ns) ∷ vs) = some (map element ns)
as_array [] = none

abbrev json : Json Value ℕ ℕ
json = record {
  find = find_member;
  is_null = λ v. false;
  elements = as_array;
  get_string = as_string;
  get_u32 = as_number;
  get_u64 = as_number;
  get_float = as_number;
  get_double = as_number;
  object = [];
  zero_float = 0;
  zero_double = 0;
  add = ◌+◌;
  of_u64 = λ n. n;
}

abbrev format : String → List (Arg ℕ) → String
format f args = f

abbrev empty_store : TelemetryStore Value ℕ ℕ
empty_store = record {
  last_frame = none;
  last_breakdown = none;
  last_memory = none;
  last_pressure = none;
  last_state = none;
  last_papyrus = none;
  connection = none;
  hot_scripts = [];
  load_order = [];
  papyrus_cumulative_us = [];
  frames = [];
  breakdowns = [];
  memories = [];
  pressures = [];
  events = [];
  stutters = [];
  last_heartbeat_t = 0;
  total_records = 0;
  total_heartbeats = 0;
  last_saved_path = none;
  last_saved_at = 0;
}

abbrev frame_record : Value
frame_record = ("type", str "frame") ∷ ("t", number 7) ∷ ("dt_ms", number 16) ∷ []

abbrev bad_state : Value
bad_state = ("type", str "state") ∷ ("player_pos", array (4 ∷ 0 ∷ 5 ∷ [])) ∷ []

abbrev script : String → ℕ → Value
script n us = ("name", str n) ∷ ("us_window", number us) ∷ []

ingest-Ok_example : After Ok (ingest json format empty_store frame_record 3)
ingest-Ok_example = ingest-Ok json format empty_store frame_record 3 (
  (omega arith, refl),
  (omega arith, refl),
  (omega arith, refl),
  (omega arith, refl),
  omega arith,
  omega arith,
)

ingest-bad_state :
    ingest json format empty_store bad_state 3 ≡ threw (counted json format empty_store)
unfolding ingest
ingest-bad_state = refl

ingest-Throws_example :
    (Throws json format bad_state
      × (ingest json format empty_store bad_state 3 ≡ threw (counted json format empty_store)))
    ⊎ (¬ Throws json format bad_state
        × ((s' : TelemetryStore Value ℕ ℕ) × (ingest json format empty_store bad_state 3
              ≡ done s')))
ingest-Throws_example = ingest-Throws json format empty_store bad_state 3

frame_fine : ¬ Throws json format frame_record
unfolding get kind_of
frame_fine t = cc t.0

ingest_all-frames_example :
    (s' : TelemetryStore Value ℕ ℕ) × (ingest_all json format empty_store
        ((frame_record, 1) ∷ (frame_record, 2) ∷ [])
      ≡ done s')
    × (s'.frames
        ≡ newest frame_ring
            ([] ++ frames_of json format ((frame_record, 1) ∷ (frame_record, 2) ∷ [])))
    × (s'.total_records ≡ (0 + 2) % 2 ^ 64)
ingest_all-frames_example =
    ingest_all-frames json format empty_store ((frame_record, 1) ∷ (frame_record, 2) ∷ [])
      (omega arith) (omega arith) (frame_fine, (frame_fine, tt))
