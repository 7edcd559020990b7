-- ===== src/Crash/Tests.antt =====
-- The theorem on the exception handler at concrete exceptions.
use skygraph.Prelude.{ℕ, ◌≡◌, refl, String, true, false, Option, none, some, List, [], ◌∷◌}
use skygraph.Framing.{Text}
use skygraph.Recorder.{Files, RollingRecorder}
use skygraph.Plugin.Records.{Value}
use skygraph.Crash.{Crash, Exception, access_violation, stack_overflow, other, leaf}
use skygraph.Crash.Once.{reported_once, handle_all, handle_all-first}

abbrev files : Files ℕ ℕ
files = record {
  create_directories = λ w. (true, w);
  gz_open = λ w p. (true, w);
  gz_write = λ w p r. (true, w);
  gz_close = λ w p. w;
  remove = λ w p. w;
  copy_file = λ w p q. (true, w);
  session_path = λ stamp. stamp;
  pinned_path = λ name stamp. stamp;
}

abbrev recording : RollingRecorder ℕ ℕ
recording = record {
  rolling_minutes = 5;
  running = true;
  gz = true;
  current_path = 7;
  window_start = 0;
  rotated = [];
  world = 0;
}

abbrev quiet : Crash ℕ ℕ
quiet = record { handled = false; has_writer = true; recorder = some recording; submitted = [] }

abbrev dump : Value ℕ → Option String
dump v = some "a crash"

abbrev hex : ℕ → String
hex n = "0x0"

abbrev module_path : ℕ → Option Text
module_path n = some (67 ∷ 92 ∷ 97 ∷ 98 ∷ [])

abbrev as_string : Text → String
as_string t = "ab"

leaf_run : leaf (67 ∷ 92 ∷ 97 ∷ 98 ∷ []) ≡ 97 ∷ 98 ∷ []
unfolding leaf
leaf_run = refl

abbrev violation : Exception ℕ
violation = record {
  code = access_violation;
  number = 3221225477;
  address = 4096;
  wall = 9;
  steady = 10;
  stamp = 11;
}

abbrev harmless : Exception ℕ
harmless = record {
  code = other;
  number = 1080890248;
  address = 0;
  wall = 8;
  steady = 9;
  stamp = 10;
}

abbrev overflow : Exception ℕ
overflow = record {
  code = stack_overflow;
  number = 3221225725;
  address = 0;
  wall = 10;
  steady = 11;
  stamp = 12;
}

abbrev exceptions : List (Option (Exception ℕ))
exceptions = none ∷ some harmless ∷ some violation ∷ some overflow ∷ []

handle_all-first_example :
    handle_all files dump hex hex module_path as_string quiet exceptions
    ≡ reported_once files dump hex hex module_path as_string quiet violation
handle_all-first_example =
    handle_all-first files dump hex hex module_path as_string quiet exceptions refl
