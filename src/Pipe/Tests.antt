-- ===== src/Pipe/Tests.antt =====
-- The theorems on the pipe with a handle that keeps what was written and refuses long records.
use skygraph.Prelude.{
  ℕ, ◌≡◌, refl, ◌⊎◌, inl, inr, Bool, true, false, some, none, List, [], ◌∷◌, ◌++◌, ap, sym, ltb,
  if◌then◌else◌, length, All, arith, ◌≢◌,
}
use skygraph.Framing.{Text, newline}
use skygraph.Pipe.{ClientSession, PipeServer, Read, ok, more_data, handle_client}
use skygraph.Pipe.Acceptor.{
  Round, pending, failed, already, at_once, is_connected, acceptor_loop, joined, Serves,
  new_session, acceptor_loop-connections,
}
use skygraph.Pipe.Delivery.{broadcasts, rounds, accepts, hangs_up, Accounted, run, run-Accounted}
use skygraph.Pipe.Viewer.{offers, flushes, track, track-Behind}

abbrev short_write : List Text → Text → Bool × ℕ × List Text
short_write h r = if ltb 3 (length r) then (true, 3, h) else (true, length r, h ++ r ∷ [])

abbrev same : List Text → List Text
same h = h

abbrev viewer : ClientSession (List Text)
viewer = record {
  handle = (1 ∷ []) ∷ [];
  alive = true;
  outbound = (2 ∷ []) ∷ [];
  outbound_pending = 1;
}

abbrev server : PipeServer (List Text)
server = record {
  running = true;
  clients = viewer ∷ [];
  connected_count = 1;
  dropped_broadcasts = 0;
}

abbrev long : Text
long = 7 ∷ 7 ∷ 7 ∷ 7 ∷ []

run-Accounted_example :
    All Accounted
      (run short_write same server (
        broadcasts long
        ∷ accepts []
        ∷ broadcasts (3 ∷ [])
        ∷ hangs_up 1
        ∷ rounds
        ∷ rounds
        ∷ [])).clients
run-Accounted_example =
    run-Accounted short_write same server
      (broadcasts long ∷ accepts [] ∷ broadcasts (3 ∷ []) ∷ hangs_up 1 ∷ rounds ∷ rounds ∷ [])
      ((refl, omega arith), tt)

-- The two answers of `short_write`, as a choice.
abbrev answer : Bool → List Text → Text → Bool × ℕ × List Text
answer b h r = if b then (true, 3, h) else (true, length r, h ++ r ∷ [])

answer_written :
    (b : Bool) (h : List Text) (r : Text) (h' : List Text)
    → ltb 3 (length r) ≡ b
    → answer b h r ≡ (true, length r, h')
    → h' ≡ h ++ r ∷ []
answer_written true h r h' t e =
    let n : 3 ≡ length r = ap (λ (p : Bool × ℕ × List Text). p.1) e in ground arith
answer_written false h r h' t e = sym (ap (λ (p : Bool × ℕ × List Text). p.2) e)

answer_refused :
    (b : Bool) (h : List Text) (r : Text)
    → ((answer b h r).0 ≡ false) ⊎ ((answer b h r).1 ≢ length r)
    → (answer b h r).2 ≡ h
answer_refused true h r k = refl
answer_refused false h r (inl e) = cc e
answer_refused false h r (inr ne) = absurd (ne refl)

track-Behind_example :
    let (c', accepted) =
      track short_write same viewer
        (offers (3 ∷ []) ∷ flushes ∷ offers long ∷ flushes ∷ offers (4 ∷ []) ∷ []) in
    (zs : List Text) × (same c'.handle ++ zs ≡ ((1 ∷ []) ∷ (2 ∷ []) ∷ []) ++ accepted)
    × ((c'.alive ≡ false) ⊎ (zs ≡ c'.outbound))
track-Behind_example =
    track-Behind short_write same same (λ h r h'. answer_written (ltb 3 (length r)) h r h' refl)
      (λ h r. answer_refused (ltb 3 (length r)) h r) (λ h. refl) viewer ((1 ∷ []) ∷ (2 ∷ []) ∷ [])
      (offers (3 ∷ []) ∷ flushes ∷ offers long ∷ flushes ∷ offers (4 ∷ []) ∷ []) refl

abbrev keep : List Text → Text → List Text
keep s line = s ++ line ∷ []

abbrev reads : List Read
reads = ok (5 ∷ newline ∷ 6 ∷ []) ∷ more_data (7 ∷ newline ∷ []) ∷ ok (newline ∷ 8 ∷ []) ∷ []

handle_client-run : handle_client (some keep) [] [] reads ≡ ((5 ∷ []) ∷ (6 ∷ 7 ∷ []) ∷ [], 8 ∷ [])
unfolding handle_client skygraph.Framing.each_line
handle_client-run = refl

-- a viewer, an instance that cannot be created, another viewer, and the wake-up of Stop
abbrev answers : List (Round (List Text))
answers =
    record { instance_handle = some []; connect = pending true; still_running = true }
    ∷ record { instance_handle = none; connect = failed; still_running = true }
    ∷ record { instance_handle = some []; connect = failed; still_running = true }
    ∷ record { instance_handle = some ((5 ∷ []) ∷ []); connect = already; still_running = true }
    ∷ record { instance_handle = some []; connect = at_once; still_running = false }
    ∷ []

acceptor_loop-connections_example :
    (hs : List (List Text)) × Serves answers hs × (acceptor_loop server answers ≡ joined server hs)
acceptor_loop-connections_example = acceptor_loop-connections server answers (omega arith)

-- the two viewers
acceptor_loop-run :
    (acceptor_loop server answers).clients
    ≡ viewer ∷ new_session [] ∷ new_session ((5 ∷ []) ∷ []) ∷ []
unfolding acceptor_loop is_connected
acceptor_loop-run = refl
