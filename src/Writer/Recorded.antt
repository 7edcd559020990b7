-- ===== src/Writer/Recorded.antt =====
-- What a viewer is sent and what the recorder keeps of the records that the writer thread takes
-- (plugin/src/transport/writer_thread.cpp, pipe_server.cpp and rolling_recorder.cpp).
use mathlib.Core.List.{foldl, flatten}
use skygraph.Prelude.{
  ℕ, ◌+◌, ◌-◌, ◌*◌, ◌<◌, ◌≡◌, refl, sym, ap, ◌∙◌, subst, Bool, true, false, not, Option, none, some,
  List, [], ◌∷◌, ◌++◌, append-nil, append_assoc, length, All, leb, if◌then◌else◌,
}
use skygraph.Framing.{Text}
use skygraph.Ring.State.{Represents}
use skygraph.Pipe.{broadcast}
use skygraph.Pipe.Delivery.{total}
use skygraph.Recorder.{RollingRecorder, Files, append, write_record, close_current, minute}
use skygraph.Writer.Loop.{Writer, turn, drain, drain-turns}
use skygraph.Writer.Sinks.{Sinks, make_rounds, record_copy, deliver}
use skygraph.Writer.Following.{Has, Following, offer_all-Has, rounds-Has}

abbrev pub NonEmpty : Text → Type 0
NonEmpty [] = ⊥
NonEmpty (b ∷ r) = Unit

gate :
    {A : Type 0} (a b c : Bool) (x y z w : A)
    → a ≡ true
    → b ≡ true
    → c ≡ false
    → (if not a then x else if not b then y else if c then z else w) ≡ w
gate false b c x y z w p q r = cc
gate true false c x y z w p q r = cc
gate true true true x y z w p q r = cc
gate true true false x y z w p q r = refl

module _ {P W : Type 0} (fs : Files P W) (content : W → P → Text)
    (gz_writes : (w : W) (p : P) (r : Text)
      → NonEmpty r
      → (w' : W) × (fs.gz_write w p r ≡ (true, w')) × (content w' p ≡ content w p ++ r)) where
  -- A recorder that runs, with a file open since some time, and the content of that file.
  abbrev pub Keeping : ℕ → ℕ → P → Text → Option (RollingRecorder P W) → Type 0
  Keeping minutes since p text none = ⊥
  Keeping minutes since p text (some s) =
      (s.running ≡ true)
      × (s.gz ≡ true)
      × (s.rolling_minutes ≡ minutes)
      × (s.window_start ≡ since)
      × (s.current_path ≡ p)
      × (content s.world p ≡ text)

  write_record-ok :
      (s : RollingRecorder P W) (r : Text) (w : W)
      → fs.gz_write s.world s.current_path r ≡ (true, w)
      → write_record fs s r ≡ record s { world = w }
  unfolding write_record
  write_record-ok s r w e =
      ap
        (λ (p : Bool × W).
          if p.0 then record s { world = p.1 } else close_current fs (record s { world = p.1 }))
        e

  append-Keeping :
      (minutes since : ℕ) (p : P) (text r : Text) (s : RollingRecorder P W) (now stamp : ℕ)
      → NonEmpty r
      → leb (minutes * minute) (now - since) ≡ false
      → Keeping minutes since p text (some s)
      → Keeping minutes since p (text ++ r) (some (append fs s r now stamp))
  unfolding append
  append-Keeping minutes since p text r s now stamp full h (run, opened, m, w, path, c) =
      let (w', e, grown) = gz_writes s.world s.current_path r full in
      let small : leb (s.rolling_minutes * minute) (now - s.window_start) ≡ false = cc (h, m, w) in
      let step =
        gate s.running s.gz (leb (s.rolling_minutes * minute) (now - s.window_start)) s s _
          (write_record fs s r) run opened small
        ∙ write_record-ok s r w' e in
      subst (λ x. Keeping minutes since p (text ++ r) (some x)) (sym step)
        (
          run,
          opened,
          m,
          w,
          path,
          ap (λ q. content w' q) (sym path)
              ∙ grown
              ∙ ap (λ x. x ++ r) (ap (λ q. content s.world q) path ∙ c),
        )

  copy-Keeping :
      (clock : ℕ → ℕ × ℕ) (minutes since : ℕ) (p : P) (text r : Text)
      (o : Option (RollingRecorder P W)) (n : ℕ)
      → NonEmpty r
      → leb (minutes * minute) ((clock n).0 - since) ≡ false
      → Keeping minutes since p text o
      → Keeping minutes since p (text ++ r) (record_copy fs clock o r n)
  unfolding record_copy
  copy-Keeping clock minutes since p text r none n full h k = absurd k
  copy-Keeping clock minutes since p text r (some s) n full h k =
      append-Keeping minutes since p text r s (clock n).0 (clock n).1 full h k

module _ {H P W : Type 0} (log : H → List Text) (write_file : H → Text → Bool × ℕ × H)
    (cancel : H → H)
    (writes : (h : H) (r : Text)
      → (h' : H) × (write_file h r ≡ (true, length r, h')) × (log h' ≡ log h ++ r ∷ []))
    (fs : Files P W) (content : W → P → Text)
    (gz_writes : (w : W) (p : P) (r : Text)
      → NonEmpty r
      → (w' : W) × (fs.gz_write w p r ≡ (true, w')) × (content w' p ≡ content w p ++ r))
    (rounds : ℕ → ℕ) (clock : ℕ → ℕ × ℕ) (minutes since : ℕ) (p : P)
    (within : (n : ℕ) → leb (minutes * minute) ((clock n).0 - since) ≡ false) where
  deliver-both :
      (s : Sinks H P W) (sent : List Text) (r : Text) (room : ℕ) (text : Text)
      → NonEmpty r
      → Has (Following log sent (length r + room)) (s.pipe.clients)
      → Keeping fs content gz_writes minutes since p text (s.recorder)
      → let s' = deliver write_file cancel fs rounds clock s r in
        Has (Following log (sent ++ r ∷ []) room) (s'.pipe.clients)
        × Keeping fs content gz_writes minutes since p (text ++ r) (s'.recorder)
  unfolding deliver broadcast
  deliver-both s sent r room text full h k = (
    offer_all-Has log (make_rounds write_file cancel (rounds s.taken) s.pipe).clients sent r room
        (rounds-Has log write_file cancel writes (rounds s.taken) s.pipe sent (length r + room) h),
    copy-Keeping fs content gz_writes clock minutes since p text r (s.recorder) s.taken full
        (within s.taken) k,
  )

  deliver_each :
      (s : Sinks H P W) (sent : List Text) (rs : List Text) (text : Text)
      → All NonEmpty rs
      → Has (Following log sent (total rs)) (s.pipe.clients)
      → Keeping fs content gz_writes minutes since p text (s.recorder)
      → let s' = foldl (deliver write_file cancel fs rounds clock) s rs in
        Has (Following log (sent ++ rs) 0) (s'.pipe.clients)
        × Keeping fs content gz_writes minutes since p (text ++ flatten rs) (s'.recorder)
  unfolding flatten
  deliver_each s sent [] text full h k = (
    subst (λ xs. Has (Following log xs 0) (s.pipe.clients)) (sym (append-nil sent)) h,
    subst (λ x. Keeping fs content gz_writes minutes since p x (s.recorder)) (sym (append-nil text))
        k,
  )
  deliver_each s sent (r ∷ rs) text full h k =
      let s1 = deliver write_file cancel fs rounds clock s r in
      let s' = foldl (deliver write_file cancel fs rounds clock) s1 rs in
      let (h1, k1) = deliver-both s sent r (total rs) text full.0 h k in
      let (h', k') = deliver_each s1 (sent ++ r ∷ []) rs (text ++ r) full.1 h1 k1 in
      (
        subst (λ xs. Has (Following log xs 0) (s'.pipe.clients)) (append_assoc sent (r ∷ []) rs) h',
        subst (λ x. Keeping fs content gz_writes minutes since p x (s'.recorder))
            (append_assoc text r (flatten rs)) k',
      )

  -- However many turns the writer thread makes before it is stopped, and whatever rounds the pipe
  -- server's thread makes between its records: after the drain, a viewer's session that was live,
  -- with room for all the records that waited in the ring, has been written or waits to be written
  -- what it had before and then all those records, once each and in order (none of them empty); and the file that the
  -- recorder had open has grown by exactly their bytes. Relied on: each write to the pipe and to the
  -- file, of a record that is not empty, succeeds and adds what is written; the recorder's window does not end; no more records are
  -- submitted meanwhile.
  pub drain-recorded :
      (moved : Text → Text) (s : Writer Text (Sinks H P W)) (k c : ℕ) (rs : List Text)
      (times : List ℕ) (fuel : ℕ) (sent : List Text) (text : Text)
      → Represents (s.ring) k c rs
      → length rs < fuel
      → All NonEmpty rs
      → Has (Following log sent (total rs)) (s.sink.pipe.clients)
      → Keeping fs content gz_writes minutes since p text (s.sink.recorder)
      → let put = deliver write_file cancel fs rounds clock in
        let s' = (drain moved put fuel (foldl (turn moved put) s times)).sink in
        Has (Following log (sent ++ rs) 0) (s'.pipe.clients)
        × Keeping fs content gz_writes minutes since p (text ++ flatten rs) (s'.recorder)
  drain-recorded moved s k c rs times fuel sent text rep enough full h kept =
      subst
        (λ (s' : Sinks H P W).
          Has (Following log (sent ++ rs) 0) (s'.pipe.clients)
          × Keeping fs content gz_writes minutes since p (text ++ flatten rs) (s'.recorder))
        (sym (
          drain-turns moved (deliver write_file cancel fs rounds clock) s k c rs times fuel rep
            enough))
        (deliver_each (s.sink) sent rs text full h kept)
