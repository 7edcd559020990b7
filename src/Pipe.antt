-- ===== src/Pipe.antt =====
-- plugin/src/transport/pipe_server.h and pipe_server.cpp: the sessions of the connected viewers,
-- the broadcast of a record to them, a round of the writer thread, and the reader thread of a
-- session. A handle of the operating system has the type `H`; `write_file` is `WriteFile` (did it
-- succeed, the bytes written, the handle afterwards) and `cancel` is `CancelIoEx`. The writer's
-- round and a broadcast are taken as one step each.
pub mod Acceptor
pub mod Delivery
pub mod Commands
pub mod Viewer
mod Tests
use skygraph.Prelude.{
  ℕ, zero, suc, ◌+◌, ◌-◌, ◌*◌, ◌%◌, ◌^◌, Bool, true, false, not, ◌||◌, Option, none, some, List, [],
  ◌∷◌, ◌++◌, ltb, ◌==◌, if◌then◌else◌, length,
}
use skygraph.Framing.{Text, split_lines}

abbrev pub high_watermark : ℕ
high_watermark = 16 * 1024 * 1024

pub record ClientSession {ℓ} (H : Type ℓ) : Type ℓ where
  pub handle : H
  pub alive : Bool
  pub outbound : List Text
  pub outbound_pending : ℕ

pub record PipeServer {ℓ} (H : Type ℓ) : Type ℓ where
  pub running : Bool
  pub clients : List (ClientSession H)
  pub connected_count : ℕ
  pub dropped_broadcasts : ℕ

module _ {ℓ} {H : Type ℓ} where
  -- The body of the loop of `Broadcast`; the Boolean tells that the record was dropped.
  unfoldable pub offer : ClientSession H → Text → Bool × ClientSession H
  offer c r =
      if not c.alive
      then (false, c)
      else if ltb high_watermark (c.outbound_pending + length r)
      then (true, c)
      else (
        false,
        record c {
          outbound = c.outbound ++ r ∷ [];
          outbound_pending = c.outbound_pending + length r;
        },
      )

  unfoldable pub offer_all : List (ClientSession H) → Text → ℕ × List (ClientSession H)
  unfolding offer
  offer_all [] r = (0, [])
  offer_all (c ∷ cs) r =
      let (dropped, c') = offer c r in
      let (n, cs') = offer_all cs r in ((if dropped then 1 else 0) + n, c' ∷ cs')

  unfoldable pub broadcast : PipeServer H → Text → PipeServer H
  unfolding offer_all
  broadcast s r =
      let (n, cs) = offer_all s.clients r in
      record s { clients = cs; dropped_broadcasts = (s.dropped_broadcasts + n) % 2 ^ 64 }

  -- The end of `AcceptorLoop`: a connected pipe instance becomes a session.
  unfoldable pub accept : PipeServer H → H → PipeServer H
  accept s h = record s {
    clients =
        s.clients ++ record { handle = h; alive = true; outbound = []; outbound_pending = 0 } ∷ [];
    connected_count = (s.connected_count + 1) % 2 ^ 32;
  }

  -- `Stop`: no session is left.
  unfoldable pub stop : PipeServer H → PipeServer H
  stop s = if s.running then record s { running = false; clients = []; connected_count = 0 } else s

  unfoldable pub start : PipeServer H → PipeServer H
  start s = record s { running = true }

  unfoldable pub kill : List (ClientSession H) → ℕ → List (ClientSession H)
  kill [] i = []
  kill (c ∷ cs) zero = record c { alive = false } ∷ cs
  kill (c ∷ cs) (suc i) = c ∷ kill cs i

  -- The end of `HandleClient`, for the `i`-th session.
  unfoldable pub hang_up : PipeServer H → ℕ → PipeServer H
  unfolding kill
  hang_up s i = record s {
    clients = kill s.clients i;
    connected_count = (s.connected_count + 2 ^ 32 - 1) % 2 ^ 32;
  }

  -- Dead sessions leave the list.
  unfoldable pub reap : List (ClientSession H) → List (ClientSession H)
  reap [] = []
  reap (c ∷ cs) = let rest = reap cs in if c.alive then c ∷ rest else rest

  module _ (write_file : H → Text → Bool × ℕ × H) (cancel : H → H) where
    -- The records of `local`, until a write fails or is short; did any get written, and is the
    -- client still good?
    unfoldable pub write_out : H → List Text → Bool × Bool × H
    write_out h [] = (false, true, h)
    write_out h (r ∷ rs) =
        let (ok, written, h') = write_file h r in
        let (did, good, h'') = write_out h' rs in
        if not ok || not (written == length r) then (false, false, cancel h') else (true, good, h'')

    -- One client in a round of `WriterLoop`.
    unfoldable pub flush : ClientSession H → Bool × ClientSession H
    unfolding write_out
    flush c =
        let (did, good, h) = write_out c.handle c.outbound in
        if not c.alive
        then (false, c)
        else (did, record c { handle = h; alive = good; outbound = []; outbound_pending = 0 })

    unfoldable pub flush_all : List (ClientSession H) → Bool × List (ClientSession H)
    unfolding flush
    flush_all [] = (false, [])
    flush_all (c ∷ cs) =
        let (did, c') = flush c in let (any, cs') = flush_all cs in (did || any, c' ∷ cs')

    -- A round of `WriterLoop`; the Boolean is `didAny`.
    unfoldable pub writer_round : PipeServer H → Bool × PipeServer H
    unfolding reap flush_all
    writer_round s =
        let (did_any, cs) = flush_all (reap s.clients) in (did_any, record s { clients = cs })

-- What `ReadFile` gives the reader thread.
pub data Read : Type 0 where
  ok : Text → Read
  more_data : Text → Read
  broken : Read

module _ {ℓ} {S : Type ℓ} (on_command : Option (S → Text → S)) where
  unfoldable pub command_line : S → Text → S
  command_line s [] = s
  command_line s (b ∷ line) = elim on_command [ none ↦ s | some f ↦ f s (b ∷ line) ]

  -- The loop of `HandleClient` over the results of its reads. The handler is one that has caught
  -- its own exceptions.
  unfoldable pub handle_client : S → Text → List Read → S × Text
  unfolding command_line
  handle_client s accumulator [] = (s, accumulator)
  handle_client s accumulator (broken ∷ reads) = (s, accumulator)
  handle_client s accumulator (more_data bytes ∷ reads) =
      handle_client s (accumulator ++ bytes) reads
  handle_client s accumulator (ok bytes ∷ reads) =
      let (s', rest) = split_lines command_line s (accumulator ++ bytes) in
      handle_client s' rest reads
