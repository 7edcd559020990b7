-- ===== src/Pipe/Acceptor.antt =====
-- `AcceptorLoop` of plugin/src/transport/pipe_server.cpp, over what Windows answers in its rounds.
use skygraph.Prelude.{
  ◌+◌, ◌%◌, ◌^◌, ◌<◌, ◌≡◌, ◌∙◌, Bool, true, false, not, Option, none, some, List, [], ◌∷◌, ◌++◌,
  append-nil, append_assoc, if◌then◌else◌, length, map, arith,
}
use skygraph.Pipe.{PipeServer, ClientSession, accept}

-- `ConnectNamedPipe`: it succeeds, or it fails with ERROR_IO_PENDING (and then what
-- GetOverlappedResult answers), with ERROR_PIPE_CONNECTED or with another error.
pub data Connect : Type 0 where
  at_once : Connect
  pending : Bool → Connect
  already : Connect
  failed : Connect

unfoldable pub is_connected : Connect → Bool
is_connected at_once = true
is_connected (pending result) = result
is_connected already = true
is_connected failed = false

-- A round of the loop: a pipe instance, if it was created, how the wait for a viewer ended, and
-- whether the server was still running then.
pub record Round {ℓ} (H : Type ℓ) : Type ℓ where
  pub instance_handle : Option H
  pub connect : Connect
  pub still_running : Bool

-- What happens to an acceptor, and the viewers that it gets: the rounds end with `running` false at
-- the head of the loop (`ended`) or at the end of a wait (`woken`, the connection that Stop makes); no
-- instance can be created; a wait fails at once or later; a viewer connects at once, later, or had
-- connected before the wait.
pub data Serves {H : Type 0} : List (Round H) → List H → Type 0 where
  ended : Serves [] []
  woken :
      (h : H) (c : Connect) (rs : List (Round H))
      → Serves (record { instance_handle = some h; connect = c; still_running = false } ∷ rs) []
  no_instance :
      (c : Connect) (b : Bool) {rs : List (Round H)} {hs : List H}
      → Serves rs hs
      → Serves (record { instance_handle = none; connect = c; still_running = b } ∷ rs) hs
  refused :
      (h : H) {rs : List (Round H)} {hs : List H}
      → Serves rs hs
      → Serves (record { instance_handle = some h; connect = failed; still_running = true } ∷ rs) hs
  broke_off :
      (h : H) {rs : List (Round H)} {hs : List H}
      → Serves rs hs
      → Serves
          (record { instance_handle = some h; connect = pending false; still_running = true } ∷ rs)
          hs
  connects_at_once :
      (h : H) {rs : List (Round H)} {hs : List H}
      → Serves rs hs
      → Serves
          (record { instance_handle = some h; connect = at_once; still_running = true } ∷ rs)
          (h ∷ hs)
  connects_later :
      (h : H) {rs : List (Round H)} {hs : List H}
      → Serves rs hs
      → Serves
          (record { instance_handle = some h; connect = pending true; still_running = true } ∷ rs)
          (h ∷ hs)
  had_connected :
      (h : H) {rs : List (Round H)} {hs : List H}
      → Serves rs hs
      → Serves
          (record { instance_handle = some h; connect = already; still_running = true } ∷ rs)
          (h ∷ hs)

module _ {H : Type 0} where
  -- The loop; where the list ends, `running` is false at its head.
  unfoldable pub acceptor_loop : PipeServer H → List (Round H) → PipeServer H
  unfolding accept is_connected
  acceptor_loop s [] = s
  acceptor_loop s (r ∷ rs) = elim (r.instance_handle) [
    | none ↦ acceptor_loop s rs
    | some h ↦
        let accepted = acceptor_loop (accept s h) rs in
        let waited = acceptor_loop s rs in
        if not r.still_running
        then s
        else if not (is_connected (r.connect))
        then waited
        else accepted
  ]

  abbrev pub new_session : H → ClientSession H
  new_session h = record { handle = h; alive = true; outbound = []; outbound_pending = 0 }

  -- The server with some sessions more.
  abbrev pub joined : PipeServer H → List H → PipeServer H
  joined s hs = record s {
    clients = s.clients ++ map new_session hs;
    connected_count = (s.connected_count + length hs) % 2 ^ 32;
  }

  joined-nil : (s : PipeServer H) → s.connected_count < 2 ^ 32 → s ≡ joined s []
  joined-nil s h =
      let e : (s.connected_count + 0) % 2 ^ 32 ≡ s.connected_count = omega (arith, h) in
      cc (e, append-nil s.clients)

  joined-accept :
      (s : PipeServer H) (h : H) (hs : List H) → joined (accept s h) hs ≡ joined s (h ∷ hs)
  unfolding accept
  joined-accept s h hs =
      let e : ((s.connected_count + 1) % 2 ^ 32 + length hs) % 2 ^ 32
          ≡ (s.connected_count + length (h ∷ hs)) % 2 ^ 32 =
        omega arith in
      cc (e, append_assoc s.clients (new_session h ∷ []) (map new_session hs))

  accept_small : (s : PipeServer H) (h : H) → (accept s h).connected_count < 2 ^ 32
  unfolding accept
  accept_small s h = omega arith

  -- A round before others.
  serves_round :
      (o : Option H) (c : Connect) (b : Bool) (rs : List (Round H)) (hs : List H)
      → Serves rs hs
      → (more : List H) × Serves
          (record { instance_handle = o; connect = c; still_running = b } ∷ rs)
          more
  serves_round none c b rs hs t = (hs, no_instance c b t)
  serves_round (some h) c false rs hs t = ([], woken h c rs)
  serves_round (some h) at_once true rs hs t = (h ∷ hs, connects_at_once h t)
  serves_round (some h) (pending true) true rs hs t = (h ∷ hs, connects_later h t)
  serves_round (some h) (pending false) true rs hs t = (hs, broke_off h t)
  serves_round (some h) already true rs hs t = (h ∷ hs, had_connected h t)
  serves_round (some h) failed true rs hs t = (hs, refused h t)

  -- Each history is one of them.
  serves : (rs : List (Round H)) → (hs : List H) × Serves rs hs
  serves [] = ([], ended)
  serves (r ∷ rs) =
      let (hs, t) = serves rs in
      serves_round (r.instance_handle) (r.connect) (r.still_running) rs hs t

  serves-joined :
      (s : PipeServer H) {rs : List (Round H)} {hs : List H}
      → s.connected_count < 2 ^ 32
      → Serves rs hs
      → acceptor_loop s rs ≡ joined s hs
  unfolding acceptor_loop is_connected
  serves-joined s b ended = joined-nil s b
  serves-joined s b (woken h c rs) = joined-nil s b
  serves-joined s b (no_instance c k t) = serves-joined s b t
  serves-joined s b (refused h t) = serves-joined s b t
  serves-joined s b (broke_off h t) = serves-joined s b t
  serves-joined s b (connects_at_once h t) =
      serves-joined (accept s h) (accept_small s h) t ∙ joined-accept s h _
  serves-joined s b (connects_later h t) =
      serves-joined (accept s h) (accept_small s h) t ∙ joined-accept s h _
  serves-joined s b (had_connected h t) =
      serves-joined (accept s h) (accept_small s h) t ∙ joined-accept s h _

  -- Whatever Windows answers in the rounds of the acceptor, it serves some viewers: the sessions that
  -- were there stay, and behind them there is a new one, live and with nothing to send, for each
  -- viewer that connected (at once, later or before the wait) before the server was stopped, once each
  -- and in order; the count of the viewers goes up by their number (modulo 2^32). An instance that
  -- cannot be created, a wait that fails (at once or later) and the connection that Stop makes to end
  -- the last wait leave nothing behind. Condition: the count is one of 32 bits.
  pub acceptor_loop-connections :
      (s : PipeServer H) (rs : List (Round H))
      → s.connected_count < 2 ^ 32
      → (hs : List H) × Serves rs hs × (acceptor_loop s rs ≡ joined s hs)
  acceptor_loop-connections s rs b = let (hs, t) = serves rs in (hs, t, serves-joined s b t)
