-- ===== src/Recorder.antt =====
-- plugin/src/transport/rolling_recorder.h and rolling_recorder.cpp: the tee of every record into
-- files that are rotated and pruned. `P` is a path, `W` the file system with zlib's streams in it;
-- the operations on it are parameters. Times: minutes are windows of the steady clock, `stamp` is the
-- wall clock in the seconds that a file name shows.
pub mod Rotation
pub mod Losses
mod Tests
use skygraph.Prelude.{
  ℕ, zero, suc, ◌+◌, ◌-◌, ◌*◌, ◌≤◌, Bool, true, false, not, ◌||◌, ◌&&◌, Option, none, some, List,
  [], ◌∷◌, ◌++◌, ltb, leb, ◌==◌, if◌then◌else◌, length,
}
use skygraph.Framing.{Text}

pub record Files (P W : Type 0) : Type 0 where
  pub create_directories : W → Bool × W
  pub gz_open : W → P → Bool × W
  pub gz_write : W → P → Text → Bool × W
  pub gz_close : W → P → W
  pub remove : W → P → W
  pub copy_file : W → P → P → Bool × W
  pub session_path : ℕ → P
  pub pinned_path : Text → ℕ → P

pub record RollingRecorder (P W : Type 0) : Type 0 where
  pub rolling_minutes : ℕ
  pub running : Bool
  -- is the file of `current_path` open?
  pub gz : Bool
  pub current_path : P
  pub window_start : ℕ
  pub rotated : List P
  pub world : W

abbrev pub keep_rotations : ℕ
keep_rotations = 3

abbrev pub minute : ℕ
minute = 60 * 1000000000

-- The last path of a list goes, and is removed from the disk.
unfoldable pub drop_last {ℓ κ} :
    {P : Type ℓ} {W : Type κ} → (W → P → W) → W → P → List P → W × List P
drop_last remove w p [] = (remove w p, [])
drop_last remove w p (q ∷ ps) = let (w', qs) = drop_last remove w q ps in (w', p ∷ qs)

-- `PruneOldFiles`. Each round takes one path, so as many rounds as there are paths are enough.
unfoldable pub prune_old_files {ℓ κ} :
    {P : Type ℓ} {W : Type κ} → (W → P → W) → ℕ → W → List P → W × List P
unfolding drop_last
prune_old_files remove zero w ps = (w, ps)
prune_old_files remove (suc fuel) w [] = (w, [])
prune_old_files remove (suc fuel) w (p ∷ ps) =
    let (w', qs) = drop_last remove w p ps in
    let rest = prune_old_files remove fuel w' qs in
    if ltb keep_rotations (length (p ∷ ps)) then rest else (w, p ∷ ps)

-- Letters and digits, dash and underscore.
unfoldable pub is_name_char : ℕ → Bool
is_name_char c =
    (leb b'0' c && leb c b'9')
    || (leb b'A' c && leb c b'Z')
    || (leb b'a' c && leb c b'z')
    || c == b'-'
    || c == b'_'

unfoldable pub clean_chars : Text → Text
unfolding is_name_char
clean_chars [] = []
clean_chars (c ∷ cs) = let rest = clean_chars cs in if is_name_char c then c ∷ rest else rest

-- "pinned", for a name that has no such character.
unfoldable pub sanitize : Text → Text
unfolding clean_chars
sanitize name = elim (clean_chars name) [
  | [] ↦ b'p' ∷ b'i' ∷ b'n' ∷ b'n' ∷ b'e' ∷ b'd' ∷ []
  | c ∷ cs ↦ c ∷ cs
]

module _ {P W : Type 0} (fs : Files P W) where
  unfoldable pub init : ℕ → P → W → RollingRecorder P W
  init minutes p w = record {
    rolling_minutes = if minutes == 0 then 5 else minutes;
    running = false;
    gz = false;
    current_path = p;
    window_start = 0;
    rotated = [];
    world = w;
  }

  unfoldable pub open_new_file : RollingRecorder P W → ℕ → ℕ → Bool × RollingRecorder P W
  open_new_file s now stamp =
      let path = fs.session_path stamp in
      let (ok, w) = fs.gz_open s.world path in
      if ok
      then (true, record s { current_path = path; gz = true; window_start = now; world = w })
      else (false, record s { current_path = path; world = w })

  unfoldable pub close_current : RollingRecorder P W → RollingRecorder P W
  unfolding prune_old_files
  close_current s =
      let (w, kept) =
        prune_old_files fs.remove (suc (length s.rotated)) (fs.gz_close s.world s.current_path)
          (s.current_path ∷ s.rotated) in
      if s.gz then record s { gz = false; rotated = kept; world = w } else s

  unfoldable pub start : RollingRecorder P W → ℕ → ℕ → Bool × RollingRecorder P W
  unfolding open_new_file
  start s now stamp =
      let (made, w) = fs.create_directories s.world in
      let (ok, s') = open_new_file (record s { running = true; world = w }) now stamp in
      if s.running
      then (false, s)
      else if not made
      then (false, record s { world = w })
      else if not ok
      then (false, record s' { running = false })
      else (true, s')

  unfoldable pub stop : RollingRecorder P W → RollingRecorder P W
  unfolding close_current
  stop s = let s' = close_current (record s { running = false }) in if s.running then s' else s

  -- The end of `Append`, with a file open.
  unfoldable pub write_record : RollingRecorder P W → Text → RollingRecorder P W
  unfolding close_current
  write_record s r =
      let (ok, w) = fs.gz_write s.world s.current_path r in
      let s' = record s { world = w } in if ok then s' else close_current s'

  unfoldable pub append : RollingRecorder P W → Text → ℕ → ℕ → RollingRecorder P W
  unfolding close_current open_new_file write_record
  append s r now stamp =
      let (ok, fresh) = open_new_file (close_current s) now stamp in
      if not s.running
      then s
      else if not s.gz
      then s
      else if leb (s.rolling_minutes * minute) (now - s.window_start)
      then (if ok then write_record fresh r else fresh)
      else write_record s r

  unfoldable pub rotate_now : RollingRecorder P W → ℕ → ℕ → RollingRecorder P W
  unfolding close_current open_new_file
  rotate_now s now stamp =
      let (ok, s') = open_new_file (close_current s) now stamp in if s.gz then s' else s

  -- The path on success. `stamp` is of the pin's name, `later` of the file that is opened next.
  unfoldable pub pin_current :
      RollingRecorder P W → Text → ℕ → ℕ → ℕ → Option P × RollingRecorder P W
  unfolding sanitize close_current open_new_file
  pin_current s name now stamp later =
      let pin = fs.pinned_path (sanitize name) stamp in
      let closed = close_current s in
      let (copied, w) = fs.copy_file closed.world s.current_path pin in
      let (ok, s') = open_new_file (record closed { world = w }) now later in
      if not s.gz then (none, s) else ((if copied then some pin else none), s')
