-- ===== src/Pipe/Delivery.antt =====
-- How much the pipe server (plugin/src/transport/pipe_server.cpp) holds for its sessions.
use skygraph.Prelude.{
  ℕ, zero, suc, ◌+◌, ◌≤◌, ◌≡◌, refl, sym, ap, subst, ◌⊎◌, inl, inr, Bool, true, false, List, [],
  ◌∷◌, ◌++◌, ltb, length, All, All-append, arith, Bool-cases,
}
use skygraph.Framing.{Text}
use skygraph.Pipe.{
  high_watermark, ClientSession, PipeServer, offer, offer_all, broadcast, accept, kill, hang_up,
  reap, write_out, flush, flush_all, writer_round,
}

abbrev pub total : List Text → ℕ
total [] = 0
total (r ∷ rs) = length r + total rs

total-append : (rs : List Text) (r : Text) → total (rs ++ r ∷ []) ≡ total rs + length r
total-append [] r = omega arith
total-append (x ∷ rs) r = omega (arith, total-append rs r)

pub data Event {ℓ} (H : Type ℓ) : Type ℓ where
  broadcasts : Text → Event H
  rounds : Event H
  accepts : H → Event H
  hangs_up : ℕ → Event H

module _ {H : Type 0} (write_file : H → Text → Bool × ℕ × H) (cancel : H → H) where
  unfoldable pub run : PipeServer H → List (Event H) → PipeServer H
  unfolding broadcast writer_round accept hang_up
  run s [] = s
  run s (broadcasts r ∷ es) = run (broadcast s r) es
  run s (rounds ∷ es) = run (writer_round write_file cancel s).1 es
  run s (accepts h ∷ es) = run (accept s h) es
  run s (hangs_up i ∷ es) = run (hang_up s i) es

module _ {H : Type 0} where
  -- The counter of a session is the size of its queue, which stays within the watermark.
  abbrev pub Accounted : ClientSession H → Type 0
  Accounted c = (c.outbound_pending ≡ total c.outbound) × (c.outbound_pending ≤ high_watermark)

  pub offer-dead : (c : ClientSession H) (r : Text) → c.alive ≡ false → offer c r ≡ (false, c)
  unfolding offer
  offer-dead c r e = rw (e, offer)

  pub offer-full :
      (c : ClientSession H) (r : Text)
      → c.alive ≡ true
      → ltb high_watermark (c.outbound_pending + length r) ≡ true
      → offer c r ≡ (true, c)
  unfolding offer
  offer-full c r e f = rw (e, f, offer)

  abbrev pub queued : ClientSession H → Text → ClientSession H
  queued c r = record c {
    outbound = c.outbound ++ r ∷ [];
    outbound_pending = c.outbound_pending + length r;
  }

  pub offer-queued :
      (c : ClientSession H) (r : Text)
      → c.alive ≡ true
      → ltb high_watermark (c.outbound_pending + length r) ≡ false
      → offer c r ≡ (false, queued c r)
  unfolding offer
  offer-queued c r e f = rw (e, f, offer)

  offer-cases :
      (c : ClientSession H) (r : Text)
      → ((offer c r).1 ≡ c)
        ⊎ ((offer c r ≡ (false, queued c r))
            × (c.outbound_pending + length r ≤ high_watermark)
            × (c.alive ≡ true))
  offer-cases c r = elim (Bool-cases c.alive) [
    | inr e ↦ inl (ap (λ (p : Bool × ClientSession H). p.1) (offer-dead c r e))
    | inl e ↦ elim (Bool-cases (ltb high_watermark (c.outbound_pending + length r))) [
      | inl f ↦ inl (ap (λ (p : Bool × ClientSession H). p.1) (offer-full c r e f))
      | inr f ↦ inr (offer-queued c r e f, ground arith, e)
    ]
  ]

  offer-Accounted : (c : ClientSession H) (r : Text) → Accounted c → Accounted (offer c r).1
  offer-Accounted c r h = elim (offer-cases c r) [
    | inl e ↦ subst Accounted (sym e) h
    | inr (e, le, live) ↦
        subst (λ (p : Bool × ClientSession H). Accounted p.1) (sym e)
          (omega (arith, h.0, total-append c.outbound r), le)
  ]

  offer_all-Accounted :
      (cs : List (ClientSession H)) (r : Text) → All Accounted cs → All Accounted (offer_all cs r).1
  unfolding offer_all
  offer_all-Accounted [] r h = tt
  offer_all-Accounted (c ∷ cs) r h = (offer-Accounted c r h.0, offer_all-Accounted cs r h.1)

  broadcast-Accounted :
      (s : PipeServer H) (r : Text)
      → All Accounted s.clients
      → All Accounted (broadcast s r).clients
  unfolding broadcast
  broadcast-Accounted s r h = offer_all-Accounted s.clients r h

  reap-Accounted : (cs : List (ClientSession H)) → All Accounted cs → All Accounted (reap cs)
  unfolding reap
  reap-Accounted [] h = tt
  reap-Accounted (c ∷ cs) h = elim (Bool-cases c.alive) [
    | inl e ↦ rw (e, reap) (h.0, reap-Accounted cs h.1)
    | inr e ↦ rw (e, reap) (reap-Accounted cs h.1)
  ]

  accept-Accounted :
      (s : PipeServer H) (h : H) → All Accounted s.clients → All Accounted (accept s h).clients
  unfolding accept
  accept-Accounted s h k = All-append Accounted s.clients _ k ((refl, omega arith), tt)

  kill-Accounted :
      (cs : List (ClientSession H)) (i : ℕ) → All Accounted cs → All Accounted (kill cs i)
  unfolding kill
  kill-Accounted [] i h = tt
  kill-Accounted (c ∷ cs) zero h = h
  kill-Accounted (c ∷ cs) (suc i) h = (h.0, kill-Accounted cs i h.1)

  hang_up-Accounted :
      (s : PipeServer H) (i : ℕ) → All Accounted s.clients → All Accounted (hang_up s i).clients
  unfolding hang_up
  hang_up-Accounted s i h = kill-Accounted s.clients i h

  module _ (write_file : H → Text → Bool × ℕ × H) (cancel : H → H) where
    pub flush-dead : (c : ClientSession H) → c.alive ≡ false → (flush write_file cancel c).1 ≡ c
    unfolding flush
    flush-dead c e = rw (e, flush)

    pub flush-live :
        (c : ClientSession H)
        → c.alive ≡ true
        → flush write_file cancel c ≡ (
          (write_out write_file cancel c.handle c.outbound).0,
          record c {
            handle = (write_out write_file cancel c.handle c.outbound).2;
            alive = (write_out write_file cancel c.handle c.outbound).1;
            outbound = [];
            outbound_pending = 0;
          },
        )
    unfolding flush
    flush-live c e = rw (e, flush)

    flush-Accounted : (c : ClientSession H) → Accounted c → Accounted (flush write_file cancel c).1
    flush-Accounted c h = elim (Bool-cases c.alive) [
      | inl e ↦
          subst (λ (p : Bool × ClientSession H). Accounted p.1) (sym (flush-live c e))
            (refl, omega arith)
      | inr e ↦ subst Accounted (sym (flush-dead c e)) h
    ]

    flush_all-Accounted :
        (cs : List (ClientSession H))
        → All Accounted cs
        → All Accounted (flush_all write_file cancel cs).1
    unfolding flush_all
    flush_all-Accounted [] h = tt
    flush_all-Accounted (c ∷ cs) h = (flush-Accounted c h.0, flush_all-Accounted cs h.1)

    round-Accounted :
        (s : PipeServer H)
        → All Accounted s.clients
        → All Accounted (writer_round write_file cancel s).1.clients
    unfolding writer_round
    round-Accounted s h = flush_all-Accounted (reap s.clients) (reap-Accounted s.clients h)

    -- Whatever is broadcast, connected, disconnected and written, and whatever the writes answer: the byte counter
    -- of every session stays the size of what is queued for it, which is never above 16 MiB.
    pub run-Accounted :
        (s : PipeServer H) (es : List (Event H))
        → All Accounted s.clients
        → All Accounted (run write_file cancel s es).clients
    unfolding run
    run-Accounted s [] h = h
    run-Accounted s (broadcasts r ∷ es) h =
        run-Accounted (broadcast s r) es (broadcast-Accounted s r h)
    run-Accounted s (rounds ∷ es) h =
        run-Accounted (writer_round write_file cancel s).1 es (round-Accounted s h)
    run-Accounted s (accepts k ∷ es) h = run-Accounted (accept s k) es (accept-Accounted s k h)
    run-Accounted s (hangs_up i ∷ es) h = run-Accounted (hang_up s i) es (hang_up-Accounted s i h)
