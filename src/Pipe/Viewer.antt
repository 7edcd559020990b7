-- ===== src/Pipe/Viewer.antt =====
-- The records of one session of plugin/src/transport/pipe_server.cpp: offered and written.
use skygraph.Prelude.{
  ℕ, ◌+◌, ◌≡◌, refl, sym, ap, ◌∙◌, subst, ◌⊎◌, inl, inr, Bool, true, false, not, ◌&&◌, ◌||◌, ◌≢◌,
  List, [], ◌∷◌, ◌++◌, append-nil, append_assoc, ◌==◌, if◌then◌else◌, length, arith, Bool-cases,
  ltb,
}
use skygraph.Framing.{Text}
use skygraph.Pipe.{ClientSession, offer, write_out, flush, high_watermark}
use skygraph.Pipe.Delivery.{offer-dead, offer-full, offer-queued, queued, flush-dead, flush-live}

-- What happens to one session.
pub data Turn : Type 0 where
  offers : Text → Turn
  flushes : Turn

module _ {H : Type 0} (write_file : H → Text → Bool × ℕ × H) (cancel : H → H) where
  -- The session afterwards, and the records that were accepted for it.
  unfoldable pub track : ClientSession H → List Turn → ClientSession H × List Text
  unfolding offer flush
  track c [] = (c, [])
  track c (flushes ∷ ts) = track (flush write_file cancel c).1 ts
  track c (offers r ∷ ts) =
      let (dropped, c') = offer c r in
      let (c'', accepted) = track c' ts in
      (c'', if c.alive && not dropped then r ∷ accepted else accepted)

  module _ (log : H → List Text)
      (written : (h : H) (r : Text) (h' : H)
        → write_file h r ≡ (true, length r, h')
        → log h' ≡ log h ++ r ∷ [])
      (refused : (h : H) (r : Text)
        → ((write_file h r).0 ≡ false) ⊎ ((write_file h r).1 ≢ length r)
        → log (write_file h r).2 ≡ log h)
      (cancelled : (h : H) → log (cancel h) ≡ log h) where
    abbrev Wrote : Bool × Bool × H → H → List Text → Type 0
    Wrote (did, good, h') h rs =
        (ys : List Text) × (zs : List Text) × (ys ++ zs ≡ rs)
        × (log h' ≡ log h ++ ys)
        × ((good ≡ false) ⊎ (zs ≡ []))

    write_out-bad :
        (h : H) (r : Text) (rs : List Text)
        → (not (write_file h r).0 || not ((write_file h r).1 == length r)) ≡ true
        → write_out write_file cancel h (r ∷ rs) ≡ (false, false, cancel (write_file h r).2)
    unfolding write_out
    write_out-bad h r rs e = rw (e, write_out)

    write_out-good :
        (h : H) (r : Text) (rs : List Text)
        → (not (write_file h r).0 || not ((write_file h r).1 == length r)) ≡ false
        → write_out write_file cancel h (r ∷ rs) ≡ (
          true,
          (write_out write_file cancel (write_file h r).2 rs).1,
          (write_out write_file cancel (write_file h r).2 rs).2,
        )
    unfolding write_out
    write_out-good h r rs e = rw (e, write_out)

    bad_write : (b : Bool) (n m : ℕ) → (not b || not (n == m)) ≡ true → (b ≡ false) ⊎ (n ≢ m)
    bad_write false n m e = inl refl
    bad_write true n m e = inr (ground arith)

    good_write : (b : Bool) (n m : ℕ) → (not b || not (n == m)) ≡ false → (b ≡ true) × (n ≡ m)
    good_write false n m e = cc e
    good_write true n m e = (refl, ground arith)

    write_out-Wrote : (h : H) (rs : List Text) → Wrote (write_out write_file cancel h rs) h rs
    unfolding write_out
    write_out-Wrote h [] = ([], [], refl, sym (append-nil (log h)), inr refl)
    write_out-Wrote h (r ∷ rs) =
        elim (Bool-cases (not (write_file h r).0 || not ((write_file h r).1 == length r))) [
          | inl e ↦
              subst (λ (p : Bool × Bool × H). Wrote p h (r ∷ rs)) (sym (write_out-bad h r rs e))
                (
                  [],
                  r ∷ rs,
                  refl,
                  cancelled (write_file h r).2
                      ∙ refused h r (bad_write _ _ _ e)
                      ∙ sym (append-nil (log h)),
                  inl refl,
                )
          | inr e ↦
              let (succeeded, whole) =
                good_write (write_file h r).0 (write_file h r).1 (length r) e in
              let (ys, zs, p, q, k) = write_out-Wrote (write_file h r).2 rs in
              subst (λ (p : Bool × Bool × H). Wrote p h (r ∷ rs)) (sym (write_out-good h r rs e))
                (
                  r ∷ ys,
                  zs,
                  ap (◌∷◌ r) p,
                  q
                      ∙ ap (λ ws. ws ++ ys) (written h r (write_file h r).2 (cc (succeeded, whole)))
                      ∙ append_assoc (log h) (r ∷ []) ys,
                  k,
                )
        ]

    -- The records that the viewer got, and those that it has yet to get.
    abbrev Behind : ClientSession H → List Text → Type 0
    Behind c xs =
        (zs : List Text) × (log c.handle ++ zs ≡ xs) × ((c.alive ≡ false) ⊎ (zs ≡ c.outbound))

    queued-Behind :
        (c : ClientSession H) (xs : List Text) (r : Text)
        → c.alive ≡ true
        → Behind c xs
        → Behind (queued c r) (xs ++ r ∷ [])
    queued-Behind c xs r live (zs, p, inl dead) = cc
    queued-Behind c xs r live (zs, p, inr q) = (
      c.outbound ++ r ∷ [],
      sym (append_assoc (log c.handle) c.outbound (r ∷ []))
          ∙ ap (λ ws. (log c.handle ++ ws) ++ r ∷ []) (sym q)
          ∙ ap (λ ws. ws ++ r ∷ []) p,
      inr refl,
    )

    flush-Behind :
        (c : ClientSession H) (xs : List Text)
        → Behind c xs
        → Behind (flush write_file cancel c).1 xs
    flush-Behind c xs (zs, p, q) = elim (Bool-cases c.alive) [
      | inr dead ↦ subst (λ d. Behind d xs) (sym (flush-dead write_file cancel c dead)) (zs, p, q)
      | inl live ↦
          subst (λ (d : Bool × ClientSession H). Behind d.1 xs)
            (sym (flush-live write_file cancel c live))
            (flushed live q (write_out-Wrote c.handle c.outbound))
    ]
      where
        flushed :
            c.alive ≡ true
            → (c.alive ≡ false) ⊎ (zs ≡ c.outbound)
            → Wrote (write_out write_file cancel c.handle c.outbound) c.handle c.outbound
            → Behind
                (record c {
                  handle = (write_out write_file cancel c.handle c.outbound).2;
                  alive = (write_out write_file cancel c.handle c.outbound).1;
                  outbound = [];
                  outbound_pending = 0;
                })
                xs
        flushed live (inl dead) w = cc
        flushed live (inr all) (ys, rest, cut, sent, k) = (
          rest,
          ap (λ ws. ws ++ rest) sent
              ∙ append_assoc (log c.handle) ys rest
              ∙ ap (◌++◌ (log c.handle)) (cut ∙ sym all)
              ∙ p,
          k,
        )

    abbrev Caught : ClientSession H × List Text → List Text → Type 0
    Caught (c, accepted) xs = Behind c (xs ++ accepted)

    track-offer :
        (c : ClientSession H) (r : Text) (ts : List Turn) (accepted : List Text)
        → (d : Bool × ClientSession H) → offer c r ≡ d
        → (if c.alive && not d.0 then r ∷ (track d.1 ts).1 else (track d.1 ts).1) ≡ accepted
        → track c (offers r ∷ ts) ≡ ((track d.1 ts).0, accepted)
    unfolding track
    track-offer c r ts accepted d e k = rw (e, track) (ap (λ ys. ((track d.1 ts).0, ys)) k)

    track-Caught :
        (c : ClientSession H) (xs : List Text) (ts : List Turn)
        → Behind c xs
        → Caught (track c ts) xs
    unfolding track
    track-Caught c xs [] h = subst (Behind c) (sym (append-nil xs)) h
    track-Caught c xs (flushes ∷ ts) h =
        track-Caught (flush write_file cancel c).1 xs ts (flush-Behind c xs h)
    track-Caught c xs (offers r ∷ ts) h = elim (Bool-cases c.alive) [
      | inr dead ↦
          subst (λ p. Caught p xs)
            (sym (track-offer c r ts _ (false, c) (offer-dead c r dead) (rw dead refl)))
            (track-Caught c xs ts h)
      | inl live ↦ elim (Bool-cases (ltb high_watermark (c.outbound_pending + length r))) [
        | inl full ↦
            subst (λ p. Caught p xs)
              (sym (track-offer c r ts _ (true, c) (offer-full c r live full) (rw live refl)))
              (track-Caught c xs ts h)
        | inr room ↦
            subst (λ p. Caught p xs)
              (sym (
                track-offer c r ts _ (false, queued c r) (offer-queued c r live room)
                  (rw live refl)))
              (subst (Behind (track (queued c r) ts).0)
                (append_assoc xs (r ∷ []) (track (queued c r) ts).1)
                (track-Caught (queued c r) (xs ++ r ∷ []) ts (queued-Behind c xs r live h)))
      ]
    ]

    -- While any records are offered and any rounds of the writer run, what a viewer has been sent is
    -- a prefix of what was accepted for its session, in order; and as long as the session is alive,
    -- the rest is exactly what is queued for it. (A write that succeeds in full appends the record
    -- to what the viewer sees, one that fails or is short and a cancellation change nothing.)
    pub track-Behind :
        (c : ClientSession H) (xs : List Text) (ts : List Turn)
        → log c.handle ++ c.outbound ≡ xs
        → let (c', accepted) = track c ts in
          (zs : List Text) × (log c'.handle ++ zs ≡ xs ++ accepted)
          × ((c'.alive ≡ false) ⊎ (zs ≡ c'.outbound))
    track-Behind c xs ts h = track-Caught c xs ts (c.outbound, h, inr refl)
