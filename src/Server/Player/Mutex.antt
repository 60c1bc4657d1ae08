-- ===== src/Server/Player/Mutex.antt =====
-- player.go: buffPackets and closePacketBuffer under the mutex, a publisher's goroutine against the
-- player's own. The publisher holds the mutex while it waits for room; the player locks it to close
-- the queue when it leaves. (The watcher of the session closes queues only once the publisher has
-- gone.)
pub mod Deadlock
pub mod Advance
use fastlive.Base.{
  ℕ, ◌+◌, ◌<◌, ◌≤◌, ◌≡◌, ◌≢◌, refl, sym, ap, ◌∙◌, arith, List, [], ◌∷◌, ◌++◌, length, Bool, true,
  false, Bool-cases, inl, inr, some, ok, ◌==◌, leb, ltb, if◌then◌else◌,
}
use fastlive.Connection.{Connection}
use fastlive.Av.{Packet}
use fastlive.Server.Player.{
  Player, new_player, Progress, done, blocked, buff_packets, close_packet_buffer, next_packet,
}

-- The publisher is outside of buffPackets, or inside with a packet and the mutex.
pub data Publisher : Type 0 where
  outside : Publisher
  inside : Packet → Publisher

-- doPlaying: in its loop, behind an error before it has the mutex, with the mutex, and at its end.
pub data Reader : Type 0 where
  playing leaving closing gone : Reader

pub record State : Type 0 where
  pub player : Player
  pub held : Bool
  pub publisher : Publisher
  pub reader : Reader

pub data Step : State → State → Type 0 where
  lock_send :
      {p : Player} {r : Reader} (packet : Packet)
      → Step
          (record { player = p; held = false; publisher = outside; reader = r })
          (record { player = p; held = true; publisher = inside packet; reader = r })
  send :
      {p q : Player} {r : Reader} {packet : Packet}
      → buff_packets packet p ≡ ok (done q)
      → Step
          (record { player = p; held = true; publisher = inside packet; reader = r })
          (record { player = q; held = false; publisher = outside; reader = r })
  receive :
      {p q : Player} {h : Bool} {s : Publisher} {packet : Packet}
      → next_packet p ≡ done (some packet, q)
      → Step
          (record { player = p; held = h; publisher = s; reader = playing })
          (record { player = q; held = h; publisher = s; reader = playing })
  leave :
      {p : Player} {h : Bool} {s : Publisher}
      → Step
          (record { player = p; held = h; publisher = s; reader = playing })
          (record { player = p; held = h; publisher = s; reader = leaving })
  lock_close :
      {p : Player} {s : Publisher}
      → Step
          (record { player = p; held = false; publisher = s; reader = leaving })
          (record { player = p; held = true; publisher = s; reader = closing })
  close :
      {p q : Player} {s : Publisher}
      → close_packet_buffer p ≡ ok q
      → Step
          (record { player = p; held = true; publisher = s; reader = closing })
          (record { player = q; held = false; publisher = s; reader = gone })

abbrev pub start : Player → State
start p = record { player = p; held = false; publisher = outside; reader = playing }

pub data Reachable (p : Player) : State → Type 0 where
  begin : Reachable p (start p)
  step : {s t : State} → Reachable p s → Step s t → Reachable p t

-- The mutex has one holder at most, who is inside.
pub data IsExclusive : State → Type 0 where
  free :
      {p : Player} {r : Reader}
      → r ≢ closing
      → IsExclusive (record { player = p; held = false; publisher = outside; reader = r })
  sending :
      {p : Player} {packet : Packet} {r : Reader}
      → r ≢ closing
      → IsExclusive (record { player = p; held = true; publisher = inside packet; reader = r })
  shutting :
      {p : Player}
      → IsExclusive (record { player = p; held = true; publisher = outside; reader = closing })

Step-IsExclusive : {s t : State} → IsExclusive s → Step s t → IsExclusive t
Step-IsExclusive (free n) (lock_send packet) = sending n
Step-IsExclusive (free n) leave = free (λ e. cc)
Step-IsExclusive (free n) (receive e) = free n
Step-IsExclusive (free n) lock_close = shutting
Step-IsExclusive (sending n) (send e) = free n
Step-IsExclusive (sending n) (receive e) = sending n
Step-IsExclusive (sending n) leave = sending (λ e. cc)
Step-IsExclusive (sending n) (close e) = absurd (n refl)
Step-IsExclusive shutting (close e) = free (λ e. cc)

-- In every state that can be reached the mutex is held exactly while the publisher is inside
-- buffPackets or the player inside closePacketBuffer, and never are both.
pub Reachable-IsExclusive : {p : Player} {s : State} → Reachable p s → IsExclusive s
Reachable-IsExclusive begin = free (λ e. cc)
Reachable-IsExclusive (step r k) = Step-IsExclusive (Reachable-IsExclusive r) k
