-- ===== src/Writer/Tests.antt =====
-- The theorems on the writer's loop at a ring of two slots with one record.
use mathlib.Core.List.{foldl, flatten}
use skygraph.Prelude.{
  ℕ, ◌+◌, ◌≡◌, refl, Bool, true, some, inl, List, [], ◌∷◌, ◌++◌, arith, length, if◌then◌else◌, ◌==◌,
}
use skygraph.Framing.{Text}
use skygraph.Recorder.{Files}
use skygraph.Writer.Sinks.{Sinks, deliver}
use skygraph.Writer.Following.{Has, Following}
use skygraph.Writer.Recorded.{Keeping, drain-recorded}
use skygraph.Ring.{Ring}
use skygraph.Ring.State.{Represents}
use skygraph.Writer.Loop.{Writer, turn, drain}

abbrev wrote : List Text → Text → Bool × ℕ × List Text
wrote h r = (true, length r, h ++ r ∷ [])

abbrev untouched : List Text → List Text
untouched h = h

abbrev Disk : Type 0
Disk = ℕ → Text

abbrev added : Disk → ℕ → Text → Disk
added d p r q = if q == p then d q ++ r else d q

abbrev files : Files ℕ Disk
files = record {
  create_directories = λ d. (true, d);
  gz_open = λ d p. (true, d);
  gz_write = λ d p r. (true, added d p r);
  gz_close = λ d p. d;
  remove = λ d p. d;
  copy_file = λ d p q. (true, d);
  session_path = λ stamp. stamp;
  pinned_path = λ name stamp. 1000 + stamp;
}

abbrev content : Disk → ℕ → Text
content d p = d p

abbrev one_round : ℕ → ℕ
one_round n = 1

abbrev clock : ℕ → ℕ × ℕ
clock n = (7, 8)

grows : (d : Disk) (p : ℕ) (r : Text) → added d p r p ≡ d p ++ r
grows d p r = let e : (p == p) ≡ true = ground arith in rw e refl

abbrev sinks : Sinks (List Text) ℕ Disk
sinks = record {
  pipe = record {
    running = true;
    clients =
        record {
          handle = (1 ∷ 10 ∷ []) ∷ [];
          alive = true;
          outbound = (2 ∷ 10 ∷ []) ∷ [];
          outbound_pending = 2;
        }
        ∷ [];
    connected_count = 1;
    dropped_broadcasts = 0;
  };
  recorder = some (record {
    rolling_minutes = 5;
    running = true;
    gz = true;
    current_path = 4;
    window_start = 6;
    rotated = [];
    world = λ p. 3 ∷ 10 ∷ [];
  });
  taken = 0;
}

abbrev line_waits : Ring Text
line_waits = record {
  capacity = 2;
  mask = 1;
  slots = (9 ∷ 10 ∷ []) ∷ [] ∷ [];
  head = 1;
  tail = 0;
  dropped = 0;
}

line_waits-Represents : Represents line_waits 1 0 ((9 ∷ 10 ∷ []) ∷ [])
line_waits-Represents = record {
  power = refl;
  small = omega arith;
  masked = refl;
  room = refl;
  tail_at = refl;
  head_at = refl;
  fits = omega arith;
  holds = (refl, tt);
}

abbrev wiped : Text → Text
wiped r = []

abbrev writer : Writer Text (Sinks (List Text) ℕ Disk)
writer = record {
  ring = line_waits;
  sink = sinks;
  last_reported_drops = 0;
  last_report = 0;
  warned = [];
}

drain-recorded_example :
    let put = deliver wrote untouched files one_round clock in
    let s' = (drain wiped put 2 (foldl (turn wiped put) writer (5 ∷ []))).sink in
    Has
      (Following (λ h. h) ((1 ∷ 10 ∷ []) ∷ (2 ∷ 10 ∷ []) ∷ (9 ∷ 10 ∷ []) ∷ []) 0)
      (s'.pipe.clients)
    × Keeping files content
        (λ w p r full. (added w p r, refl, grows w p r))
        5
        6
        4
        (3 ∷ 10 ∷ 9 ∷ 10 ∷ [])
        (s'.recorder)
unfolding flatten
drain-recorded_example =
    drain-recorded (λ h. h) wrote untouched (λ h r. (h ++ r ∷ [], refl, refl)) files content
      (λ w p r full. (added w p r, refl, grows w p r)) one_round clock 5 6 4 (λ n. refl) wiped
      writer 1 0 ((9 ∷ 10 ∷ []) ∷ []) (5 ∷ []) 2 ((1 ∷ 10 ∷ []) ∷ (2 ∷ 10 ∷ []) ∷ []) (3 ∷ 10 ∷ [])
      line_waits-Represents (omega arith) (tt, tt) (inl (refl, refl, omega arith))
      (refl, refl, refl, refl, refl, refl)
