-- ===== src/Plugin/Samples.antt =====
-- A viewer's JSON library on the values of the plugin themselves, and an empty store: test data that
-- the tests of several parts share.
use skygraph.Prelude.{ℕ, ◌+◌, refl, String, false, Option, none, some, List, []}
use skygraph.Plugin.Records.{Value, null, str, nat, negative, num, object, array, lookup}
use skygraph.Plugin.Decode.{Decodes, items}
use skygraph.Store.{TelemetryStore}
use skygraph.Store.Json.{Json}

abbrev pub same : Value ℕ → Value ℕ
same v = v

abbrev pub member_of : Value ℕ → String → Option (Value ℕ)
member_of null key = none
member_of (str s) key = none
member_of (nat n) key = none
member_of (negative n) key = none
member_of (num d) key = none
member_of (object fs) key = lookup fs key
member_of (array vs) key = none

abbrev pub number_in : Value ℕ → Option ℕ
number_in null = none
number_in (str s) = none
number_in (nat n) = some n
number_in (negative n) = none
number_in (num d) = some d
number_in (object fs) = none
number_in (array vs) = none

abbrev pub string_in : Value ℕ → Option String
string_in null = none
string_in (str s) = some s
string_in (nat n) = none
string_in (negative n) = none
string_in (num d) = none
string_in (object fs) = none
string_in (array vs) = none

abbrev pub values_in : Value ℕ → Option (List (Value ℕ))
values_in null = none
values_in (str s) = none
values_in (nat n) = none
values_in (negative n) = none
values_in (num d) = none
values_in (object fs) = none
values_in (array vs) = some (items same vs)

abbrev pub view : Json (Value ℕ) ℕ ℕ
view = record {
  find = member_of;
  is_null = λ v. false;
  elements = values_in;
  get_string = string_in;
  get_u32 = number_in;
  get_u64 = number_in;
  get_float = number_in;
  get_double = number_in;
  object = null;
  zero_float = 0;
  zero_double = 0;
  add = ◌+◌;
  of_u64 = λ n. n;
}

pub view-Decodes : Decodes view same (λ n. n) (λ n. n)
view-Decodes = record {
  find_object = λ fs key v e. e;
  str_null = λ s. refl;
  nat_null = λ n. refl;
  num_null = λ d. refl;
  get_str = λ s. refl;
  get_nat = λ n h. refl;
  get_num_float = λ d. refl;
  get_num_double = λ d. refl;
  elements_array = λ vs. refl;
}

abbrev pub empty_store : TelemetryStore (Value ℕ) ℕ ℕ
empty_store = record {
  last_frame = none;
  last_breakdown = none;
  last_memory = none;
  last_pressure = none;
  last_state = none;
  last_papyrus = none;
  connection = none;
  hot_scripts = [];
  load_order = [];
  papyrus_cumulative_us = [];
  frames = [];
  breakdowns = [];
  memories = [];
  pressures = [];
  events = [];
  stutters = [];
  last_heartbeat_t = 0;
  total_records = 0;
  total_heartbeats = 0;
  last_saved_path = none;
  last_saved_at = 0;
}
