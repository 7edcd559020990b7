-- ===== src/Recorder/Rotation.antt =====
-- The list of rotated files of plugin/src/transport/rolling_recorder.cpp.
use mathlib.Core.List.{foldl}
use skygraph.Prelude.{
  ℕ, zero, suc, ◌+◌, ◌-◌, ◌*◌, ◌≤◌, ◌≡◌, ◌⊎◌, refl, ap, true, false, not, Option, none, some, List,
  [], ◌∷◌, ltb, leb, if◌then◌else◌, if-all, length, take, arith, Bool-cases, inl, inr,
}
use skygraph.Framing.{Text}
use skygraph.Recorder.{
  Files, RollingRecorder, keep_rotations, minute, drop_last, prune_old_files, open_new_file,
  close_current, start, stop, write_record, append, rotate_now, sanitize, pin_current,
}

module _ {P W : Type 0} (remove : W → P → W) where
  drop_last-take :
      (w : W) (p : P) (ps : List P) → (drop_last remove w p ps).1 ≡ take (length ps) (p ∷ ps)
  unfolding drop_last
  drop_last-take w p [] = refl
  drop_last-take w p (q ∷ ps) = ap (◌∷◌ p) (drop_last-take w q ps)

  drop_last-length : (w : W) (p : P) (ps : List P) → length (drop_last remove w p ps).1 ≡ length ps
  unfolding drop_last
  drop_last-length w p [] = refl
  drop_last-length w p (q ∷ ps) = ap suc (drop_last-length w q ps)

  prune-length :
      (fuel : ℕ) (w : W) (ps : List P)
      → length ps ≤ fuel + keep_rotations
      → length (prune_old_files remove fuel w ps).1 ≤ keep_rotations
  unfolding prune_old_files
  prune-length zero w ps h = omega (arith, h)
  prune-length (suc fuel) w [] h = omega arith
  prune-length (suc fuel) w (p ∷ ps) h = elim (Bool-cases (ltb keep_rotations (length (p ∷ ps)))) [
    | inl e ↦ rw e (
        prune-length fuel (drop_last remove w p ps).0 (drop_last remove w p ps).1
          (omega (arith, h, drop_last-length w p ps)))
    | inr e ↦ rw e (ground arith)
  ]

module _ {P W : Type 0} (fs : Files P W) where
  abbrev pub Pruned : RollingRecorder P W → Type 0
  Pruned s = length s.rotated ≤ keep_rotations

  close-Pruned : (s : RollingRecorder P W) → Pruned s → Pruned (close_current fs s)
  unfolding close_current
  close-Pruned s h = elim (Bool-cases s.gz) [
    | inl e ↦ rw e (
        prune-length fs.remove (suc (length s.rotated)) (fs.gz_close s.world s.current_path)
          (s.current_path ∷ s.rotated) (omega arith))
    | inr e ↦ rw e h
  ]

  open-Pruned :
      (s : RollingRecorder P W) (now stamp : ℕ) → Pruned s → Pruned (open_new_file fs s now stamp).1
  unfolding open_new_file
  open-Pruned s now stamp h = elim (Bool-cases (fs.gz_open s.world (fs.session_path stamp)).0) [
    | inl e ↦ rw e h
    | inr e ↦ rw e h
  ]

module _ {P W : Type 0} (remove : W → P → W) where
  -- The fourth of four files is removed from the disk.
  abbrev pub oldest_removed : W → List P → W
  oldest_removed w (a ∷ (b ∷ (c ∷ (d ∷ [])))) = remove w d
  oldest_removed w ps = w

  prune-newest :
      (w : W) (p : P) (ps : List P)
      → length ps ≤ 3
      → prune_old_files remove (suc (length ps)) w (p ∷ ps)
        ≡ (oldest_removed w (p ∷ ps), take 3 (p ∷ ps))
  unfolding prune_old_files drop_last
  prune-newest w p [] h = refl
  prune-newest w p (a ∷ []) h = refl
  prune-newest w p (a ∷ (b ∷ [])) h = refl
  prune-newest w p (a ∷ (b ∷ (c ∷ []))) h = refl
  prune-newest w p (a ∷ (b ∷ (c ∷ (d ∷ ps)))) h = absurd (omega (arith, h))

module _ {P W : Type 0} (fs : Files P W) where
  -- What the end of a file leaves: without an open file nothing happens; otherwise the list has the
  -- file in front and keeps the three newest, and a fourth one is removed from the disk.
  abbrev pub Closed : RollingRecorder P W → RollingRecorder P W → Type 0
  Closed s s' =
      ((s.gz ≡ false) × (s' ≡ s))
      ⊎ ((s.gz ≡ true)
          × (s'.gz ≡ false)
          × (s'.rotated ≡ take 3 (s.current_path ∷ s.rotated))
          × (s'.world
              ≡ oldest_removed fs.remove (fs.gz_close s.world s.current_path)
                  (s.current_path ∷ s.rotated)))

  close-Closed : (s : RollingRecorder P W) → Pruned fs s → Closed s (close_current fs s)
  unfolding close_current
  close-Closed s h = elim (Bool-cases s.gz) [
    | inl e ↦
        let kept =
          prune-newest fs.remove (fs.gz_close s.world s.current_path) s.current_path s.rotated h in
        inr (
          e,
          rw (e, close_current) refl,
          rw (e, close_current) (ap (λ (q : W × List P). q.1) kept),
          rw (e, close_current) (ap (λ (q : W × List P). q.0) kept),
        )
    | inr e ↦ inl (e, rw (e, close_current) refl)
  ]

-- A call of the recorder, with the times at which it happens.
pub data Call : Type 0 where
  starts : ℕ → ℕ → Call
  stops : Call
  appends : Text → ℕ → ℕ → Call
  rotates : ℕ → ℕ → Call
  pins : Text → ℕ → ℕ → ℕ → Call

module _ {P W : Type 0} (fs : Files P W) where
  unfoldable pub call : RollingRecorder P W → Call → RollingRecorder P W
  unfolding start stop append rotate_now pin_current
  call s (starts now stamp) = (start fs s now stamp).1
  call s stops = stop fs s
  call s (appends r now stamp) = append fs s r now stamp
  call s (rotates now stamp) = rotate_now fs s now stamp
  call s (pins name now stamp later) = (pin_current fs s name now stamp later).1

  start-Pruned :
      (s : RollingRecorder P W) (now stamp : ℕ) → Pruned fs s → Pruned fs (start fs s now stamp).1
  unfolding start
  start-Pruned s now stamp h = elim (Bool-cases s.running) [
    | inl e ↦ rw e h
    | inr e ↦ elim (Bool-cases (fs.create_directories s.world).0) [
      | inr f ↦ rw (e, f) h
      | inl f ↦
          let made = record s { running = true; world = (fs.create_directories s.world).1 } in
          let opened = open_new_file fs made now stamp in
          let p : Pruned fs opened.1 = open-Pruned fs made now stamp h in
          elim (Bool-cases opened.0) [ inl g ↦ rw (e, f, g) p | inr g ↦ rw (e, f, g) p ]
    ]
  ]

  stop-Pruned : (s : RollingRecorder P W) → Pruned fs s → Pruned fs (stop fs s)
  unfolding stop
  stop-Pruned s h = elim (Bool-cases s.running) [
    | inl e ↦ rw e (close-Pruned fs (record s { running = false }) h)
    | inr e ↦ rw e h
  ]

  write-Pruned :
      (s : RollingRecorder P W) (r : Text) → Pruned fs s → Pruned fs (write_record fs s r)
  unfolding write_record
  write-Pruned s r h =
      let written = fs.gz_write s.world s.current_path r in
      elim (Bool-cases written.0) [
        | inl e ↦ rw e h
        | inr e ↦ rw e (close-Pruned fs (record s { world = written.1 }) h)
      ]

  append-Pruned :
      (s : RollingRecorder P W) (r : Text) (now stamp : ℕ)
      → Pruned fs s
      → Pruned fs (append fs s r now stamp)
  unfolding append
  append-Pruned s r now stamp h =
      let opened = open_new_file fs (close_current fs s) now stamp in
      let p : Pruned fs opened.1 =
        open-Pruned fs (close_current fs s) now stamp (close-Pruned fs s h) in
      if-all (Pruned fs) (not s.running) s _ h (
        if-all (Pruned fs) (not s.gz) s _ h (
          if-all (Pruned fs) (leb (s.rolling_minutes * minute) (now - s.window_start))
            (if opened.0 then write_record fs opened.1 r else opened.1) (write_record fs s r)
            (if-all (Pruned fs) opened.0 (write_record fs opened.1 r) opened.1
              (write-Pruned opened.1 r p) p)
            (write-Pruned s r h)))

  rotate-Pruned :
      (s : RollingRecorder P W) (now stamp : ℕ)
      → Pruned fs s
      → Pruned fs (rotate_now fs s now stamp)
  unfolding rotate_now
  rotate-Pruned s now stamp h =
      if-all (Pruned fs) s.gz (open_new_file fs (close_current fs s) now stamp).1 s
        (open-Pruned fs (close_current fs s) now stamp (close-Pruned fs s h)) h

  pin-Pruned :
      (s : RollingRecorder P W) (name : Text) (now stamp later : ℕ)
      → Pruned fs s
      → Pruned fs (pin_current fs s name now stamp later).1
  unfolding pin_current
  pin-Pruned s name now stamp later h =
      let closed = close_current fs s in
      let pin = fs.pinned_path (sanitize name) stamp in
      let copied = fs.copy_file closed.world s.current_path pin in
      let opened = open_new_file fs (record closed { world = copied.1 }) now later in
      if-all (λ (p : Option P × RollingRecorder P W). Pruned fs p.1) (not s.gz) (none, s)
        ((if copied.0 then some pin else none), opened.1) h
        (open-Pruned fs (record closed { world = copied.1 }) now later (close-Pruned fs s h))

  foldl-Pruned :
      (s : RollingRecorder P W) (cs : List Call) → Pruned fs s → Pruned fs (foldl call s cs)
  unfolding call
  foldl-Pruned s [] h = h
  foldl-Pruned s (starts now stamp ∷ cs) h =
      foldl-Pruned (start fs s now stamp).1 cs (start-Pruned s now stamp h)
  foldl-Pruned s (stops ∷ cs) h = foldl-Pruned (stop fs s) cs (stop-Pruned s h)
  foldl-Pruned s (appends r now stamp ∷ cs) h =
      foldl-Pruned (append fs s r now stamp) cs (append-Pruned s r now stamp h)
  foldl-Pruned s (rotates now stamp ∷ cs) h =
      foldl-Pruned (rotate_now fs s now stamp) cs (rotate-Pruned s now stamp h)
  foldl-Pruned s (pins name now stamp later ∷ cs) h =
      foldl-Pruned (pin_current fs s name now stamp later).1 cs
        (pin-Pruned s name now stamp later h)

  -- Whatever has been called on a recorder, and whatever the file system answered: it lists at most
  -- three rotated files, and the next end of a file puts that file in front of them, keeps the three
  -- newest in their order, and removes exactly the oldest one from the disk, if there are then four.
  -- Without an open file nothing changes.
  pub calls-Pruned :
      (s : RollingRecorder P W) (cs : List Call)
      → Pruned fs s
      → Pruned fs (foldl call s cs)
        × Closed fs (foldl call s cs) (close_current fs (foldl call s cs))
  calls-Pruned s cs h = let p = foldl-Pruned s cs h in (p, close-Closed fs (foldl call s cs) p)
