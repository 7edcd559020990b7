-- ===== src/Client/Backoff.antt =====
-- The waiting time between the attempts of `PipeClient::Loop` (viewer/src/transport/pipe_client.cpp).
use native.Mathlib.Nat.{pow-suc}
use skygraph.Prelude.{
  ℕ, suc, ◌+◌, ◌*◌, ◌^◌, ◌≡◌, refl, sym, ap, ◌∙◌, min, true, List, [], ◌∷◌, arith, Option, All,
  if◌then◌else◌,
}
use skygraph.Framing.{Text}
use skygraph.Source.{Source, feed}
use skygraph.Client.{
  PipeClient, Attempt, busy, failed, opened, first_backoff, max_backoff, attempt, back_off, session,
  connect, loop, Read, got, more_data, broken, read_loop,
}

-- A read failed for another reason than that `Stop` was called.
abbrev pub Breaks : List Read → Type 0
Breaks [] = ⊥
Breaks (broken ∷ reads) = Unit
Breaks (more_data [] ∷ reads) = Unit
Breaks (more_data (b ∷ bytes) ∷ reads) = Breaks reads
Breaks (got [] ∷ reads) = Breaks reads
Breaks (got (b ∷ bytes) ∷ reads) = Breaks reads

-- The milliseconds that the reads of a connection sleep: one for each read that gives nothing.
abbrev pub pauses : List Read → ℕ
pauses [] = 0
pauses (broken ∷ reads) = 0
pauses (more_data [] ∷ reads) = 0
pauses (more_data (b ∷ bytes) ∷ reads) = pauses reads
pauses (got [] ∷ reads) = pauses reads + 1
pauses (got (b ∷ bytes) ∷ reads) = pauses reads

abbrev pub delay : ℕ → ℕ
delay n = min max_backoff (first_backoff * 2 ^ n)

module _ {H : Type 0} where
  -- The attempts that failed since the last connection, with `n` before.
  abbrev pub failures : ℕ → List (Attempt H) → ℕ
  failures n [] = n
  failures n (busy ∷ attempts) = failures (suc n) attempts
  failures n (failed err ∷ attempts) = failures (suc n) attempts
  failures n (opened h reads ∷ attempts) = failures 0 attempts

  -- How long the thread sleeps in some attempts: the delay after one that failed, and 250 ms and the
  -- pauses of its reads for a connection.
  abbrev pub waited : ℕ → List (Attempt H) → ℕ
  waited n [] = 0
  waited n (busy ∷ attempts) = delay n + waited (suc n) attempts
  waited n (failed err ∷ attempts) = delay n + waited (suc n) attempts
  waited n (opened h reads ∷ attempts) = pauses reads + 250 + waited 0 attempts

  abbrev pub Unstopped : Attempt H → Type 0
  Unstopped busy = Unit
  Unstopped (failed err) = Unit
  Unstopped (opened h reads) = Breaks reads

doubled : (n : ℕ) → min max_backoff (delay n * 2) ≡ delay (suc n)
doubled n = omega (arith, pow-suc 2 n)

module _ {J : Type 0} (parse : Text → Option J) where
  read_loop-Breaks :
      (s : Source J) (reads : List Read) → Breaks reads → (read_loop parse s reads).1 ≡ true
  unfolding read_loop
  read_loop-Breaks s [] h = absurd h
  read_loop-Breaks s (broken ∷ reads) h = refl
  read_loop-Breaks s (more_data [] ∷ reads) h = refl
  read_loop-Breaks s (more_data (b ∷ bytes) ∷ reads) h =
      read_loop-Breaks (feed parse s (b ∷ bytes)) reads h
  read_loop-Breaks s (got [] ∷ reads) h = read_loop-Breaks s reads h
  read_loop-Breaks s (got (b ∷ bytes) ∷ reads) h =
      read_loop-Breaks (feed parse s (b ∷ bytes)) reads h

  read_loop-pauses : (s : Source J) (reads : List Read) → (read_loop parse s reads).0 ≡ pauses reads
  unfolding read_loop
  read_loop-pauses s [] = refl
  read_loop-pauses s (broken ∷ reads) = refl
  read_loop-pauses s (more_data [] ∷ reads) = refl
  read_loop-pauses s (more_data (b ∷ bytes) ∷ reads) =
      read_loop-pauses (feed parse s (b ∷ bytes)) reads
  read_loop-pauses s (got [] ∷ reads) = ap (λ n. n + 1) (read_loop-pauses s reads)
  read_loop-pauses s (got (b ∷ bytes) ∷ reads) = read_loop-pauses (feed parse s (b ∷ bytes)) reads

  module _ {H : Type 0} (to_string : ℕ → Text) where
    pub loop-next :
        (c : PipeClient H J) (a : Attempt H) (attempts : List (Attempt H))
        → c.running ≡ true
        → loop parse to_string (attempt parse to_string c a) attempts
          ≡ loop parse to_string c (a ∷ attempts)
    unfolding loop
    loop-next c a attempts r =
        ap (λ b. if b then loop parse to_string (attempt parse to_string c a) attempts else c)
          (sym r)

    pub attempt-running :
        (c : PipeClient H J) (a : Attempt H)
        → Unstopped a
        → c.running ≡ true
        → (attempt parse to_string c a).running ≡ true
    unfolding attempt back_off session connect
    attempt-running c busy u r = r
    attempt-running c (failed err) u r = r
    attempt-running c (opened p reads) u r = read_loop-Breaks (connect parse c p).source reads u

    -- With `m` milliseconds slept.
    abbrev Delayed : ℕ → ℕ → PipeClient H J → Type 0
    Delayed n m c = (c.running ≡ true) × (c.backoff ≡ delay n) × (c.slept ≡ m)

    attempt-Delayed :
        (c : PipeClient H J) (n m : ℕ) (a : Attempt H)
        → Unstopped a
        → Delayed n m c
        → Delayed (failures n (a ∷ [])) (m + waited n (a ∷ [])) (attempt parse to_string c a)
    unfolding attempt back_off session connect
    attempt-Delayed c n m busy u h = (
      attempt-running c busy u (h.0),
      ap (λ k. min max_backoff (k * 2)) h.1 ∙ doubled n,
      omega (arith, h.1, h.2),
    )
    attempt-Delayed c n m (failed err) u h = (
      attempt-running c (failed err) u (h.0),
      ap (λ k. min max_backoff (k * 2)) h.1 ∙ doubled n,
      omega (arith, h.1, h.2),
    )
    attempt-Delayed c n m (opened p reads) u h = (
      attempt-running c (opened p reads) u (h.0),
      refl,
      rw
          (
            read_loop-pauses (connect parse c p).source reads,
            read_loop-Breaks (connect parse c p).source reads u,
          )
          (omega (arith, h.2)),
    )

    failures-cons :
        (n : ℕ) (a : Attempt H) (attempts : List (Attempt H))
        → failures n (a ∷ attempts) ≡ failures (failures n (a ∷ [])) attempts
    failures-cons n busy attempts = refl
    failures-cons n (failed err) attempts = refl
    failures-cons n (opened p reads) attempts = refl

    waited-cons :
        (n m : ℕ) (a : Attempt H) (attempts : List (Attempt H))
        → m + waited n (a ∷ attempts)
          ≡ m + waited n (a ∷ []) + waited (failures n (a ∷ [])) attempts
    waited-cons n m busy attempts = omega arith
    waited-cons n m (failed err) attempts = omega arith
    waited-cons n m (opened p reads) attempts = omega arith

    loop-Delayed :
        (c : PipeClient H J) (n m : ℕ) (attempts : List (Attempt H))
        → Delayed n m c
        → All Unstopped attempts
        → Delayed (failures n attempts) (m + waited n attempts) (loop parse to_string c attempts)
    unfolding loop
    loop-Delayed c n m [] d h = (d.0, d.1, omega (arith, d.2))
    loop-Delayed c n m (a ∷ attempts) d h =
        let d' = attempt-Delayed c n m a h.0 d in
        let n' = failures n (a ∷ []) in
        let rest =
          loop-Delayed (attempt parse to_string c a) n' (m + waited n (a ∷ [])) attempts d' h.1 in
        let e = loop-next c a attempts (d.0) in
        (
          ap (λ (q : PipeClient H J). q.running) (sym e) ∙ rest.0,
          ap (λ (q : PipeClient H J). q.backoff) (sym e)
              ∙ rest.1
              ∙ ap delay (sym (failures-cons n a attempts)),
          ap (λ (q : PipeClient H J). q.slept) (sym e) ∙ rest.2 ∙ sym (waited-cons n m a attempts),
        )

    -- After any history of attempts that `Stop` does not end, from a state in which `n` of them had
    -- failed: the thread still runs; for each attempt that failed it has slept 250 ms, doubled for
    -- each attempt that failed before it since the last connection and capped at 5 s, and for each
    -- connection 250 ms and 1 ms for every read without bytes; and the next delay is the one that
    -- follows from the attempts that failed since the last connection.
    pub loop-delay :
        (c : PipeClient H J) (n : ℕ) (attempts : List (Attempt H))
        → c.running ≡ true
        → c.backoff ≡ delay n
        → All Unstopped attempts
        → ((loop parse to_string c attempts).running ≡ true)
          × ((loop parse to_string c attempts).backoff ≡ delay (failures n attempts))
          × ((loop parse to_string c attempts).slept ≡ c.slept + waited n attempts)
    loop-delay c n attempts r b h = loop-Delayed c n c.slept attempts (r, b, refl) h
