-- ===== src/Writer/Following.antt =====
-- The sessions of viewers that are written what the writer thread broadcasts
-- (plugin/src/transport/pipe_server.cpp).
use skygraph.Prelude.{
  ℕ, zero, suc, ◌+◌, ◌≤◌, ◌≡◌, ◌⊎◌, inl, inr, refl, sym, ap, ◌∙◌, subst, Bool, true, false, not,
  ◌||◌, List, [], ◌∷◌, ◌++◌, append-nil, append_assoc, length, if-all, if-cases, ◌==◌,
  if◌then◌else◌, arith,
}
use skygraph.Framing.{Text}
use skygraph.Pipe.{
  ClientSession, PipeServer, offer, offer_all, reap, write_out, flush, flush_all, writer_round,
  high_watermark,
}
use skygraph.Pipe.Delivery.{offer-queued, flush-live}
use skygraph.Writer.Sinks.{make_rounds}

-- Some element of a list is so.
abbrev pub Has {ℓ} : {A : Type ℓ} → (A → Type 0) → List A → Type 0
Has P [] = ⊥
Has P (c ∷ cs) = P c ⊎ Has P cs

module _ {H : Type 0} (log : H → List Text) where
  -- A live session that was written or waits to be written the given records, with room for more.
  abbrev pub Following : List Text → ℕ → ClientSession H → Type 0
  Following sent room c =
      (c.alive ≡ true)
      × (log (c.handle) ++ c.outbound ≡ sent)
      × (c.outbound_pending + room ≤ high_watermark)

  offer-Following :
      (c : ClientSession H) (sent : List Text) (r : Text) (room : ℕ)
      → Following sent (length r + room) c
      → Following (sent ++ r ∷ []) room (offer c r).1
  offer-Following c sent r room (a, l, p) =
      subst (λ (x : Bool × ClientSession H). Following (sent ++ r ∷ []) room x.1)
        (sym (offer-queued c r a (ground arith)))
        (
          a,
          sym (append_assoc (log (c.handle)) c.outbound (r ∷ [])) ∙ ap (λ xs. xs ++ r ∷ []) l,
          omega (arith, p),
        )

  pub offer_all-Has :
      (cs : List (ClientSession H)) (sent : List Text) (r : Text) (room : ℕ)
      → Has (Following sent (length r + room)) cs
      → Has (Following (sent ++ r ∷ []) room) (offer_all cs r).1
  unfolding offer_all
  offer_all-Has [] sent r room h = absurd h
  offer_all-Has (c ∷ cs) sent r room (inl h) = inl (offer-Following c sent r room h)
  offer_all-Has (c ∷ cs) sent r room (inr h) = inr (offer_all-Has cs sent r room h)

  reap-Has :
      (cs : List (ClientSession H)) (sent : List Text) (room : ℕ)
      → Has (Following sent room) cs
      → Has (Following sent room) (reap cs)
  unfolding reap
  reap-Has [] sent room h = absurd h
  reap-Has (c ∷ cs) sent room (inl h) =
      if-cases (Has (Following sent room)) (c.alive) (c ∷ reap cs) (reap cs) (λ e. inl h)
        (λ e. cc (e, h.0))
  reap-Has (c ∷ cs) sent room (inr h) =
      let rest = reap-Has cs sent room h in
      if-all (Has (Following sent room)) (c.alive) (c ∷ reap cs) (reap cs) (inr rest) rest

  module _ (write_file : H → Text → Bool × ℕ × H) (cancel : H → H)
      (writes : (h : H) (r : Text)
        → (h' : H) × (write_file h r ≡ (true, length r, h')) × (log h' ≡ log h ++ r ∷ [])) where
    chosen : (n : ℕ) (x y : Bool × Bool × H) → (if not (n == n) then x else y) ≡ y
    chosen n x y = let e : (n == n) ≡ true = ground arith in rw e refl

    write_out-ok :
        (h h' : H) (r : Text) (rs : List Text)
        → write_file h r ≡ (true, length r, h')
        → write_out write_file cancel h (r ∷ rs)
          ≡ (true, (write_out write_file cancel h' rs).1, (write_out write_file cancel h' rs).2)
    unfolding write_out
    write_out-ok h h' r rs e =
        ap
          (λ (p : Bool × ℕ × H).
            if not p.0 || not (p.1 == length r) then (false, false, cancel p.2) else (
              true,
              (write_out write_file cancel p.2 rs).1,
              (write_out write_file cancel p.2 rs).2,
            ))
          e
        ∙ chosen (length r) _ _

    write_out-all :
        (h : H) (rs : List Text)
        → ((write_out write_file cancel h rs).1 ≡ true)
          × (log (write_out write_file cancel h rs).2 ≡ log h ++ rs)
    unfolding write_out
    write_out-all h [] = (refl, sym (append-nil (log h)))
    write_out-all h (r ∷ rs) =
        let (h', e, l) = writes h r in
        let (good, all) = write_out-all h' rs in
        let ok = write_out-ok h h' r rs e in
        (
          ap (λ (p : Bool × Bool × H). p.1) ok ∙ good,
          ap (λ (p : Bool × Bool × H). log p.2) ok
              ∙ all
              ∙ ap (λ xs. xs ++ rs) l
              ∙ append_assoc (log h) (r ∷ []) rs,
        )

    flush-Following :
        (c : ClientSession H) (sent : List Text) (room : ℕ)
        → Following sent room c
        → Following sent room (flush write_file cancel c).1
    flush-Following c sent room (a, l, p) =
        let (good, all) = write_out-all (c.handle) c.outbound in
        subst (λ (x : Bool × ClientSession H). Following sent room x.1)
          (sym (flush-live write_file cancel c a)) (good, append-nil _ ∙ all ∙ l, omega (arith, p))

    flush_all-Has :
        (cs : List (ClientSession H)) (sent : List Text) (room : ℕ)
        → Has (Following sent room) cs
        → Has (Following sent room) (flush_all write_file cancel cs).1
    unfolding flush_all
    flush_all-Has [] sent room h = absurd h
    flush_all-Has (c ∷ cs) sent room (inl h) = inl (flush-Following c sent room h)
    flush_all-Has (c ∷ cs) sent room (inr h) = inr (flush_all-Has cs sent room h)

    pub rounds-Has :
        (n : ℕ) (s : PipeServer H) (sent : List Text) (room : ℕ)
        → Has (Following sent room) s.clients
        → Has (Following sent room) (make_rounds write_file cancel n s).clients
    unfolding make_rounds writer_round
    rounds-Has zero s sent room h = h
    rounds-Has (suc n) s sent room h =
        rounds-Has n (writer_round write_file cancel s).1 sent room
          (flush_all-Has (reap s.clients) sent room (reap-Has s.clients sent room h))
