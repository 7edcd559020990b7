-- ===== src/Recorder/Tests.antt =====
-- The theorems on the recorder with a file system that is a list of files; the path is a number.
use mathlib.Core.List.{foldl}
use skygraph.Prelude.{
  ℕ, ◌+◌, ◌≡◌, refl, Bool, true, false, List, [], ◌∷◌, ◌++◌, ◌==◌, if◌then◌else◌, arith,
}
use skygraph.Framing.{Text}
use skygraph.Recorder.{Files, RollingRecorder, close_current, append, rotate_now}
use skygraph.Recorder.Rotation.{
  Call, starts, stops, appends, rotates, pins, Pruned, Closed, call, calls-Pruned,
}
use skygraph.Recorder.Losses.{append_all, append_all-stuck, rotate-same_second}

abbrev Disk : Type 0
Disk = ℕ → List Text

abbrev put : Disk → ℕ → List Text → Disk
put d p c q = if q == p then c else d q

abbrev not_empty : Text → Bool
not_empty [] = false
not_empty (c ∷ r) = true

-- An empty record cannot be written.
abbrev files : Files ℕ Disk
files = record {
  create_directories = λ d. (true, d);
  gz_open = λ d p. (true, put d p []);
  gz_write = λ d p r. (not_empty r, put d p (d p ++ r ∷ []));
  gz_close = λ d p. d;
  remove = λ d p. put d p [];
  copy_file = λ d p q. (true, put d q (d p));
  session_path = λ stamp. stamp;
  pinned_path = λ name stamp. 1000 + stamp;
}

abbrev recording : RollingRecorder ℕ Disk
recording = record {
  rolling_minutes = 5;
  running = true;
  gz = true;
  current_path = 7;
  window_start = 0;
  rotated = 3 ∷ 2 ∷ [];
  world = λ p. (p ∷ []) ∷ [];
}

abbrev history : List Call
history =
    rotates 1 8
    ∷ appends (65 ∷ []) 2 8
    ∷ pins (66 ∷ []) 3 9 9
    ∷ rotates 4 10
    ∷ stops
    ∷ starts 5 11
    ∷ []

calls-Pruned_example :
    Pruned files (foldl (call files) recording history)
    × Closed files
        (foldl (call files) recording history)
        (close_current files (foldl (call files) recording history))
calls-Pruned_example = calls-Pruned files recording history (omega arith)

append_all-stuck_example :
    append_all files (append files recording [] 1 7) (((65 ∷ []), 2, 8) ∷ ((66 ∷ []), 3, 9) ∷ [])
    ≡ append files recording [] 1 7
append_all-stuck_example =
    append_all-stuck files recording [] 1 7 (((65 ∷ []), 2, 8) ∷ ((66 ∷ []), 3, 9) ∷ []) refl refl
      refl refl

put_self : (d : Disk) (p : ℕ) → put d p [] p ≡ []
put_self d p = ground arith

rotate-same_second_example :
    let s' = rotate_now files recording 1 7 in
    (s'.world 7 ≡ []) × (s'.current_path ≡ 7) × (s'.rotated ≡ 7 ∷ 3 ∷ 2 ∷ [])
rotate-same_second_example =
    rotate-same_second files (λ d p. d p) recording 1 7 put_self refl refl (omega arith)
