-- ===== src/Frame/Window.antt =====
-- The window of the rolling median, against the list of all frame times.
use mathlib.Core.List.{foldl}
use skygraph.Prelude.{
  ℕ, suc, ◌+◌, ◌-◌, ◌%◌, ◌≤◌, ◌<◌, ◌≡◌, refl, sym, ap, ◌∙◌, subst, ◌⊎◌, inl, inr, false, List, [],
  ◌∷◌, ◌++◌, append-nil, append_assoc, ltb, lt→ltb, length, length-append, set, length-set, take,
  drop, arith,
}
use skygraph.Store.Rings.{newest, newest-append}
use skygraph.Frame.{window_size, FrameState, store_sample, samples}

module _ {F : Type 0} where
  set-append :
      (a : List F) (y : F) (b : List F) (x : F) → set (a ++ y ∷ b) (length a) x ≡ a ++ x ∷ b
  set-append [] y b x = refl
  set-append (z ∷ a) y b x = ap (◌∷◌ z) (set-append a y b x)

  take-append : (a b : List F) → take (length a) (a ++ b) ≡ a
  take-append [] b = refl
  take-append (x ∷ a) b = ap (◌∷◌ x) (take-append a b)

  newest-all : (xs : List F) (size : ℕ) → length xs ≤ size → newest size xs ≡ xs
  newest-all xs size h = ap (λ n. drop n xs) {x = length xs - size} {y = 0} (omega arith)

  -- One sample more than a full window: the oldest goes.
  newest-next :
      (y : F) (cs : List F) (x : F) (size : ℕ)
      → length (y ∷ cs) ≡ size
      → newest size (y ∷ cs ++ x ∷ []) ≡ cs ++ x ∷ []
  newest-next y cs x size h =
      ap (λ n. drop n (y ∷ cs ++ x ∷ [])) {x = length (y ∷ cs ++ x ∷ []) - size} {y = 1}
        (omega (arith, length-append cs (x ∷ [])))

  -- The window while it fills up, and when it is full and wraps around.
  abbrev Filling : FrameState F → List F → Type 0
  Filling s xs =
      (rest : List F) × (s.window ≡ xs ++ rest) × (s.window_count ≡ length xs) × (s.window_idx ≡ 0)

  abbrev Full : FrameState F → List F → Type 0
  Full s xs =
      (a : List F) × (b : List F) × (s.window ≡ a ++ b)
      × (s.window_count ≡ window_size)
      × (s.window_idx ≡ length a)
      × (s.window_idx < window_size)
      × (b ++ a ≡ newest window_size xs)

  abbrev Inv : FrameState F → List F → Type 0
  Inv s xs = (length s.window ≡ window_size) × (Filling s xs ⊎ Full s xs)

  store-filling :
      (s : FrameState F) (dt : F)
      → s.window_count < window_size
      → store_sample s dt
        ≡ record s { window = set s.window s.window_count dt; window_count = s.window_count + 1 }
  unfolding store_sample
  store-filling s dt h = rw (lt→ltb s.window_count window_size h, store_sample) refl

  store-full :
      (s : FrameState F) (dt : F)
      → s.window_count ≡ window_size
      → store_sample s dt ≡ record s {
        window = set s.window s.window_idx dt;
        window_idx = (s.window_idx + 1) % window_size;
      }
  unfolding store_sample
  store-full s dt h =
      let f : ltb s.window_count window_size ≡ false = ground arith in rw (f, store_sample) refl

  -- The newest samples after one more.
  newest_step :
      (xs : List F) (y : F) (cs : List F) (dt : F)
      → y ∷ cs ≡ newest window_size xs
      → length (y ∷ cs) ≡ window_size
      → cs ++ dt ∷ [] ≡ newest window_size (xs ++ dt ∷ [])
  newest_step xs y cs dt n len =
      sym (newest-next y cs dt window_size len)
      ∙ ap (λ l. newest window_size (l ++ dt ∷ [])) n
      ∙ newest-append window_size xs (dt ∷ [])

  store-length :
      (s : FrameState F) (i : ℕ) (dt : F)
      → length s.window ≡ window_size
      → length (set s.window i dt) ≡ window_size
  store-length s i dt len = length-set s.window i dt ∙ len

  wrap_step :
      (s : FrameState F) (xs : List F) (dt : F)
      → length s.window ≡ window_size
      → Full s xs
      → Inv (store_sample s dt) (xs ++ dt ∷ [])
  wrap_step s xs dt len (a, [], w, c, i, lt, n) =
      let l : length a ≡ window_size = ap length (sym (append-nil a)) ∙ ap length (sym w) ∙ len in
      absurd (omega (arith, l, i, lt))
  wrap_step s xs dt len (a, y ∷ b, w, c, i, lt, n) =
      subst (λ t. Inv t (xs ++ dt ∷ [])) (sym (store-full s dt c))
        (store-length s s.window_idx dt len, inr (wrapped b w n))
    where
      wrapped :
          (b : List F)
          → s.window ≡ a ++ y ∷ b
          → (y ∷ b) ++ a ≡ newest window_size xs
          → Full
              (record s {
                window = set s.window s.window_idx dt;
                window_idx = (s.window_idx + 1) % window_size;
              })
              (xs ++ dt ∷ [])
      wrapped b w n =
          let put : set s.window s.window_idx dt ≡ a ++ dt ∷ b =
            ap (λ v. set v s.window_idx dt) w
            ∙ ap (λ k. set (a ++ y ∷ b) k dt) i
            ∙ set-append a y b dt in
          let size : length a + suc (length b) ≡ window_size =
            sym (length-append a (y ∷ b)) ∙ ap length (sym w) ∙ len in
          let chron : (b ++ a) ++ dt ∷ [] ≡ newest window_size (xs ++ dt ∷ []) =
            newest_step xs y (b ++ a) dt n (omega (arith, size, length-append b a)) in
          split b put size chron
        where
          split :
              (b : List F)
              → set s.window s.window_idx dt ≡ a ++ dt ∷ b
              → length a + suc (length b) ≡ window_size
              → (b ++ a) ++ dt ∷ [] ≡ newest window_size (xs ++ dt ∷ [])
              → Full
                  (record s {
                    window = set s.window s.window_idx dt;
                    window_idx = (s.window_idx + 1) % window_size;
                  })
                  (xs ++ dt ∷ [])
          split [] put size chron = (
            [],
            a ++ dt ∷ [],
            put,
            c,
            omega (arith, i, size),
            omega arith,
            append-nil (a ++ dt ∷ []) ∙ chron,
          )
          split (z ∷ b) put size chron = (
            a ++ dt ∷ [],
            z ∷ b,
            put ∙ sym (append_assoc a (dt ∷ []) (z ∷ b)),
            c,
            omega (arith, i, size, length-append a (dt ∷ [])),
            omega (arith, i, size),
            sym (append_assoc (z ∷ b) a (dt ∷ [])) ∙ chron,
          )

  fill_step :
      (s : FrameState F) (xs : List F) (dt : F)
      → length s.window ≡ window_size
      → Filling s xs
      → Inv (store_sample s dt) (xs ++ dt ∷ [])
  fill_step s xs dt len ([], w, c, i) =
      let l : length xs ≡ window_size = ap length (sym (append-nil xs)) ∙ ap length (sym w) ∙ len in
      wrap_step s xs dt len (
        [],
        xs,
        w ∙ append-nil xs,
        c ∙ l,
        i,
        omega (arith, i),
        append-nil xs ∙ sym (newest-all xs window_size (omega (arith, l))),
      )
  fill_step s xs dt len (y ∷ rest, w, c, i) =
      let l : length xs + suc (length rest) ≡ window_size =
        sym (length-append xs (y ∷ rest)) ∙ ap length (sym w) ∙ len in
      subst (λ t. Inv t (xs ++ dt ∷ [])) (sym (store-filling s dt (omega (arith, c, l))))
        (
          store-length s s.window_count dt len,
          inl (
            rest,
            ap (λ v. set v s.window_count dt) w
                ∙ ap (λ k. set (xs ++ y ∷ rest) k dt) c
                ∙ set-append xs y rest dt
                ∙ sym (append_assoc xs (dt ∷ []) rest),
            omega (arith, c, length-append xs (dt ∷ [])),
            i,
          ),
        )

  all_steps :
      (s : FrameState F) (xs dts : List F) → Inv s xs → Inv (foldl store_sample s dts) (xs ++ dts)
  all_steps s xs [] h = subst (Inv s) (sym (append-nil xs)) h
  all_steps s xs (dt ∷ dts) (len, h) =
      subst (Inv (foldl store_sample s (dt ∷ dts))) (append_assoc xs (dt ∷ []) dts)
        (all_steps (store_sample s dt) (xs ++ dt ∷ []) dts (one h))
    where
      one : Filling s xs ⊎ Full s xs → Inv (store_sample s dt) (xs ++ dt ∷ [])
      one (inl f) = fill_step s xs dt len f
      one (inr f) = wrap_step s xs dt len f

  -- From an empty window on, the samples that the median is taken of are the newest 240 frame times,
  -- or all while there are fewer: in order, but for a rotation.
  pub window_lem :
      (s : FrameState F) (dts : List F)
      → length s.window ≡ window_size
      → s.window_count ≡ 0
      → s.window_idx ≡ 0
      → (a : List F) × (b : List F) × (samples (foldl store_sample s dts) ≡ a ++ b)
        × (b ++ a ≡ newest window_size dts)
  window_lem s dts len c i = result (all_steps s [] dts (len, inl (s.window, refl, c, i)))
    where
      result :
          Inv (foldl store_sample s dts) dts
          → (a : List F) × (b : List F) × (samples (foldl store_sample s dts) ≡ a ++ b)
            × (b ++ a ≡ newest window_size dts)
      result (len', inl (rest, w, n, k)) = (
        [],
        dts,
        ap (λ m. take m (foldl store_sample s dts).window) n
            ∙ ap (take (length dts)) w
            ∙ take-append dts rest,
        append-nil dts
            ∙ sym (
                newest-all dts window_size
                  (omega (arith, len', ap length w, length-append dts rest))),
      )
      result (len', inr (a, b, w, n, k, lt, e)) = (
        a,
        b,
        ap (λ m. take m (foldl store_sample s dts).window) (n ∙ sym len')
            ∙ ap (λ v. take (length v) v) w
            ∙ ap (take (length (a ++ b))) (sym (append-nil (a ++ b)))
            ∙ take-append (a ++ b) [],
        e,
      )
