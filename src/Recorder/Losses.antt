-- ===== src/Recorder/Losses.antt =====
-- A failed write, and a rotation within a second (plugin/src/transport/rolling_recorder.cpp).
use skygraph.Prelude.{
  ℕ, ◌*◌, ◌-◌, ◌≤◌, ◌≡◌, refl, sym, ap, ◌∙◌, true, false, List, [], ◌∷◌, ltb, leb, if◌then◌else◌,
  length, Bool-cases, inl, inr, arith,
}
use skygraph.Framing.{Text}
use skygraph.Recorder.{
  Files, RollingRecorder, minute, keep_rotations, open_new_file, close_current, write_record,
  append, rotate_now,
}

module _ {P W : Type 0} (fs : Files P W) where
  append-closed :
      (s : RollingRecorder P W) (r : Text) (now stamp : ℕ)
      → s.gz ≡ false
      → append fs s r now stamp ≡ s
  unfolding append
  append-closed s r now stamp e = elim (Bool-cases s.running) [
    | inl f ↦ rw (f, e) refl
    | inr f ↦ rw f refl
  ]

  unfoldable pub append_all : RollingRecorder P W → List (Text × ℕ × ℕ) → RollingRecorder P W
  unfolding append
  append_all s [] = s
  append_all s ((r, now, stamp) ∷ rs) = append_all (append fs s r now stamp) rs

  closed_for_good :
      (s : RollingRecorder P W) (rs : List (Text × ℕ × ℕ)) → s.gz ≡ false → append_all s rs ≡ s
  unfolding append_all
  closed_for_good s [] e = refl
  closed_for_good s ((r, now, stamp) ∷ rs) e =
      ap (λ t. append_all t rs) (append-closed s r now stamp e) ∙ closed_for_good s rs e

  close-gz : (s : RollingRecorder P W) → s.gz ≡ true → (close_current fs s).gz ≡ false
  unfolding close_current
  close-gz s e = rw e refl

  write-failed :
      (s : RollingRecorder P W) (r : Text)
      → (fs.gz_write s.world s.current_path r).0 ≡ false
      → write_record fs s r
        ≡ close_current fs (record s { world = (fs.gz_write s.world s.current_path r).1 })
  unfolding write_record
  write-failed s r e = rw e refl

  append-write :
      (s : RollingRecorder P W) (r : Text) (now stamp : ℕ)
      → s.running ≡ true
      → s.gz ≡ true
      → leb (s.rolling_minutes * minute) (now - s.window_start) ≡ false
      → append fs s r now stamp ≡ write_record fs s r
  unfolding append
  append-write s r now stamp e f g = rw (e, f, g) refl

  -- After one write that fails inside a window, a running recorder keeps nothing of the records that
  -- follow, however many and however late: no window ever begins again.
  pub append_all-stuck :
      (s : RollingRecorder P W) (r : Text) (now stamp : ℕ) (rs : List (Text × ℕ × ℕ))
      → s.running ≡ true
      → s.gz ≡ true
      → leb (s.rolling_minutes * minute) (now - s.window_start) ≡ false
      → (fs.gz_write s.world s.current_path r).0 ≡ false
      → append_all (append fs s r now stamp) rs ≡ append fs s r now stamp
  append_all-stuck s r now stamp rs e f g h =
      let closed = append-write s r now stamp e f g ∙ write-failed s r h in
      closed_for_good (append fs s r now stamp) rs (
        ap (λ t. t.gz) closed
        ∙ close-gz (record s { world = (fs.gz_write s.world s.current_path r).1 }) f)

  close-rotated :
      (s : RollingRecorder P W)
      → s.gz ≡ true
      → length s.rotated ≤ 2
      → (close_current fs s).rotated ≡ s.current_path ∷ s.rotated
  unfolding close_current
  close-rotated s e few =
      let f : ltb keep_rotations (length (s.current_path ∷ s.rotated)) ≡ false = ground arith in
      rw (e, f) refl

  open-path :
      (s : RollingRecorder P W) (now stamp : ℕ)
      → ((open_new_file fs s now stamp).1.current_path ≡ fs.session_path stamp)
        × ((open_new_file fs s now stamp).1.rotated ≡ s.rotated)
        × ((open_new_file fs s now stamp).1.world ≡ (fs.gz_open s.world (fs.session_path stamp)).1)
  unfolding open_new_file
  open-path s now stamp = elim (Bool-cases (fs.gz_open s.world (fs.session_path stamp)).0) [
    | inl e ↦ rw e (refl, refl, refl)
    | inr e ↦ rw e (refl, refl, refl)
  ]

  rotate-open :
      (s : RollingRecorder P W) (now stamp : ℕ)
      → s.gz ≡ true
      → rotate_now fs s now stamp ≡ (open_new_file fs (close_current fs s) now stamp).1
  unfolding rotate_now
  rotate-open s now stamp e =
      ap (λ b. if b then (open_new_file fs (close_current fs s) now stamp).1 else s) e

  -- When a file that was opened in this second is rotated, the recorder opens the same path again:
  -- if opening truncates (as mode "wb" does) the records in it are gone, and the path stands among
  -- the rotated files while it is being written.
  pub rotate-same_second :
      (content : W → P → List Text) (s : RollingRecorder P W) (now stamp : ℕ)
      → ((w : W) (p : P) → content (fs.gz_open w p).1 p ≡ [])
      → s.gz ≡ true
      → s.current_path ≡ fs.session_path stamp
      → length s.rotated ≤ 2
      → let s' = rotate_now fs s now stamp in
        (content s'.world s.current_path ≡ [])
        × (s'.current_path ≡ s.current_path)
        × (s'.rotated ≡ s.current_path ∷ s.rotated)
  rotate-same_second content s now stamp truncates e same few =
      let (p, q, w) = open-path (close_current fs s) now stamp in
      let to_open = rotate-open s now stamp e in
      (
        ap (λ t. content t.world s.current_path) to_open
            ∙ ap (λ v. content v s.current_path) w
            ∙ ap (content (fs.gz_open (close_current fs s).world (fs.session_path stamp)).1) same
            ∙ truncates (close_current fs s).world (fs.session_path stamp),
        ap (λ t. t.current_path) to_open ∙ p ∙ sym same,
        ap (λ t. t.rotated) to_open ∙ q ∙ close-rotated s e few,
      )
