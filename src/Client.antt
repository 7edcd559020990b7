-- ===== src/Client.antt =====
-- viewer/src/transport/pipe_client.h and pipe_client.cpp: the thread that keeps the viewer connected
-- to the plugin. A handle has the type `H`; `write_file` is `WriteFile` (did it succeed, the bytes
-- written) and `to_string` is std::to_string. What CreateFileA and ReadFile answer is a list; where
-- the list ends, `_running` is false. A `sleep_for` adds to `slept`.
pub mod Replay
pub mod Backoff
pub mod Sessions
mod Tests
use skygraph.Prelude.{
  ℕ, zero, suc, ◌+◌, ◌*◌, min, Bool, true, false, ◌&&◌, Option, none, some, List, [], ◌∷◌, ◌++◌,
  ◌==◌, if◌then◌else◌, length,
}
use skygraph.Framing.{Text, newline}
use skygraph.Source.{Source, State, set_state, set_error, feed}
use skygraph.Writer.{ends_line}

-- `250ms`
abbrev pub first_backoff : ℕ
first_backoff = 250

-- `kMaxBackoff`
abbrev pub max_backoff : ℕ
max_backoff = 5000

pub record PipeClient {ℓ κ} (H : Type ℓ) (J : Type κ) : Type (ℓ ⊔ κ) where
  pub running : Bool
  pub handle : Option H
  pub backoff : ℕ  -- the local of `Loop`, in milliseconds
  pub slept : ℕ  -- milliseconds
  pub source : Source J

-- What `ReadFile` gives: success with its bytes, ERROR_MORE_DATA with its bytes, another error.
pub data Read : Type 0 where
  got : Text → Read
  more_data : Text → Read
  broken : Read

-- What `CreateFileA` gives, and for a handle what the reads of it give.
pub data Attempt {ℓ} (H : Type ℓ) : Type ℓ where
  busy : Attempt H
  failed : ℕ → Attempt H
  opened : H → List Read → Attempt H

-- "waiting for plugin ("
abbrev pub waiting : Text
waiting =
    119 ∷ 97 ∷ 105 ∷ 116 ∷ 105 ∷ 110 ∷ 103 ∷ 32 ∷ 102 ∷ 111 ∷ 114 ∷ 32 ∷ 112 ∷ 108 ∷ 117 ∷ 103 ∷ 105
    ∷ 110 ∷ 32 ∷ 40 ∷ []

-- The line that `SendCommand` writes: a newline at its end if it has none.
unfoldable pub command_bytes : Text → Text
unfolding ends_line
command_bytes [] = newline ∷ []
command_bytes (b ∷ line) = if ends_line b line then b ∷ line else (b ∷ line) ++ newline ∷ []

module _ {κ} {J : Type κ} (parse : Text → Option J) where
  -- The inner loop: how many milliseconds it slept, whether a read failed, and the source. A read
  -- that `Stop` cancels ends the list.
  unfoldable pub read_loop : Source J → List Read → ℕ × Bool × Source J
  unfolding feed
  read_loop s [] = (0, false, s)
  read_loop s (broken ∷ reads) = (0, true, s)
  read_loop s (more_data [] ∷ reads) = (0, true, s)
  read_loop s (more_data (b ∷ bytes) ∷ reads) = read_loop (feed parse s (b ∷ bytes)) reads
  read_loop s (got [] ∷ reads) = let (ms, lost, s') = read_loop s reads in (ms + 1, lost, s')
  read_loop s (got (b ∷ bytes) ∷ reads) = read_loop (feed parse s (b ∷ bytes)) reads

module _ {ℓ κ} {H : Type ℓ} {J : Type κ} where
  unfoldable pub send_command : (H → Text → Bool × ℕ) → PipeClient H J → Text → Bool × Option Text
  unfolding command_bytes
  send_command write_file c line = elim (c.handle) [
    | none ↦ (false, none)
    | some h ↦
        let (ok, written) = write_file h (command_bytes line) in
        (ok && written == length (command_bytes line), some (command_bytes line))
  ]

  unfoldable pub start : PipeClient H J → PipeClient H J
  start c = if c.running then c else record c { running = true; backoff = first_backoff }

  unfoldable pub stop : PipeClient H J → PipeClient H J
  unfolding set_state
  stop c =
      if c.running
      then record c {
        running = false;
        handle = none;
        source = set_state (c.source) State.disconnected;
      }
      else c

  module _ (parse : Text → Option J) where
    -- A handle is there.
    unfoldable pub connect : PipeClient H J → H → PipeClient H J
    unfolding set_state
    connect c h = record c {
      handle = some h;
      backoff = first_backoff;
      source = set_state (set_state (c.source) State.connecting) State.connected;
    }

    -- The reads of a connection, and what follows them.
    unfoldable pub session : PipeClient H J → List Read → PipeClient H J
    unfolding read_loop set_state
    session c reads =
        let (ms, lost, s) = read_loop parse (c.source) reads in
        record c {
          running = lost;
          handle = none;
          slept = c.slept + ms + (if lost then 250 else 0);
          source = set_state s State.disconnected;
        }

    module _ (to_string : ℕ → Text) where
      -- An attempt that got no handle.
      unfoldable pub back_off : PipeClient H J → Source J → PipeClient H J
      back_off c s = record c {
        source = s;
        slept = c.slept + c.backoff;
        backoff = min max_backoff (c.backoff * 2);
      }

      -- A round of the outer loop.
      unfoldable pub attempt : PipeClient H J → Attempt H → PipeClient H J
      unfolding set_state set_error back_off connect session
      attempt c busy = back_off c (set_state (c.source) State.connecting)
      attempt c (failed err) =
          back_off c (
            set_error (set_state (c.source) State.connecting) (waiting ++ to_string err ++ 41 ∷ []))
      attempt c (opened h reads) = session (connect c h) reads

      -- `Loop`, while `_running` holds.
      unfoldable pub loop : PipeClient H J → List (Attempt H) → PipeClient H J
      unfolding attempt
      loop c [] = c
      loop c (a ∷ attempts) =
          let rest = loop (attempt c a) attempts in if c.running then rest else c
