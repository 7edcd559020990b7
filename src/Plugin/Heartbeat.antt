-- ===== src/Plugin/Heartbeat.antt =====
-- The heartbeats of `HeartbeatLoop` (plugin/src/plugin.cpp), at the viewer.
use skygraph.Prelude.{
  ℕ, ◌+◌, ◌%◌, ◌^◌, ◌<◌, ◌≡◌, List, [], ◌∷◌, get_elem?, Option, some, none, arith, ap, ◌∙◌, zero,
  suc,
}
use skygraph.Plugin.Records.{Value}
use skygraph.Plugin.{heartbeat, heartbeat_loop}

module _ {D : Type 0} where
  -- What a round submits.
  abbrev beat : ℕ → Option (D × D × ℕ) → Option (Value D)
  beat seq none = none
  beat seq (some (now, uptime, clients)) = some (heartbeat now seq uptime clients)

  -- The n-th heartbeat carries the sequence number n (modulo 2^64) and its round's time, uptime and
  -- number of clients.
  pub heartbeat_loop-get_elem? :
      (seq : ℕ) (rounds : List (D × D × ℕ)) (n : ℕ) (now uptime : D) (clients : ℕ)
      → seq < 2 ^ 64
      → get_elem? rounds n ≡ some (now, uptime, clients)
      → get_elem? (heartbeat_loop seq rounds) n
        ≡ some (heartbeat now ((seq + n) % 2 ^ 64) uptime clients)
  unfolding heartbeat_loop
  heartbeat_loop-get_elem? seq [] n now uptime clients h e = cc
  heartbeat_loop-get_elem? seq ((a, b, c) ∷ rounds) zero now uptime clients h e =
      ap (beat seq) e ∙ ap (λ k. some (heartbeat now k uptime clients)) (omega arith)
  heartbeat_loop-get_elem? seq ((a, b, c) ∷ rounds) (suc n) now uptime clients h e =
      heartbeat_loop-get_elem? ((seq + 1) % 2 ^ 64) rounds n now uptime clients (omega arith) e
      ∙ ap (λ k. some (heartbeat now k uptime clients)) (omega arith)
