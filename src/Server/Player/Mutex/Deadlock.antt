-- ===== src/Server/Player/Mutex/Deadlock.antt =====
-- The wait of a publisher for a player and of the player for the publisher.
use fastlive.Base.{
  ℕ, zero, suc, ◌<◌, ◌≤◌, ◌≡◌, refl, ap, ◌∙◌, arith, [], ◌∷◌, ◌++◌, length, replicate,
  length-replicate, true, false, ok,
}
use fastlive.Connection.{Connection}
use fastlive.Av.{Packet}
use fastlive.Server.Player.{Player, new_player, done, blocked, buff_packets}
use fastlive.Server.Player.Mutex.{State, Step, Reachable, start, inside, leaving}

-- The publisher waits with the mutex for room in a queue that its reader has left.
pub data IsDeadlock : State → Type 0 where
  waiting :
      {p : Player} {packet : Packet}
      → buff_packets packet p ≡ ok blocked
      → IsDeadlock (record { player = p; held = true; publisher = inside packet; reader = leaving })

-- Nobody can move.
stuck_for_good : {s t : State} → IsDeadlock s → ¬ Step s t
stuck_for_good (waiting full) (Step.send e) = cc

-- A queue with so many packets in it.
abbrev filled : Player → Packet → ℕ → Player
filled p packet n = record p { packet_buffer = replicate n packet }

replicate-snoc : {A : Type 0} (n : ℕ) (a : A) → replicate n a ++ (a ∷ []) ≡ replicate (suc n) a
replicate-snoc zero a = refl
replicate-snoc (suc n) a = ap (λ l. a ∷ l) (replicate-snoc n a)

-- Whether an open queue takes a packet.
pub buff_packets-room :
    (packet : Packet) (p : Player)
    → p.buffer_closed ≡ 0
    → p.channel_closed ≡ false
    → length p.packet_buffer < p.packet_buf_size
    → buff_packets packet p
      ≡ ok (done (record p { packet_buffer = p.packet_buffer ++ (packet ∷ []) }))
unfolding buff_packets
buff_packets-room packet p e f h = ground (arith, e, f, h)

buff_packets-full :
    (packet : Packet) (p : Player)
    → p.buffer_closed ≡ 0
    → p.channel_closed ≡ false
    → p.packet_buf_size ≤ length p.packet_buffer
    → buff_packets packet p ≡ ok blocked
unfolding buff_packets
buff_packets-full packet p e f h = ground (arith, e, f, h)

module _ (c : Connection) (size wait : ℕ) (packet : Packet) where
  fill :
      (n : ℕ)
      → n ≤ (new_player c size wait).packet_buf_size
      → Reachable (new_player c size wait) (start (filled (new_player c size wait) packet n))
  unfolding new_player
  fill zero h = Reachable.begin
  fill (suc n) h =
      Reachable.step (Reachable.step (fill n (omega (arith, h))) (Step.lock_send packet)) (
        Step.send (
          buff_packets-room packet (filled (new_player c size wait) packet n) refl refl
            (omega (arith, length-replicate n packet, h))
          ∙ ap (λ l. ok (done (record (new_player c size wait) { packet_buffer = l })))
              (replicate-snoc n packet)))

  -- From a new player, whatever the size of its queue, a state can be reached in which nobody can
  -- move any more: the publisher waits inside buffPackets, with the mutex, for room in the queue,
  -- and the player, which has left its loop with an error and empties the queue no more, waits for
  -- the mutex in order to close it.
  pub buff_packets-deadlock :
      (s : State) × Reachable (new_player c size wait) s
      × (s.publisher ≡ inside packet)
      × (s.reader ≡ leaving)
      × ((t : State) → ¬ Step s t)
  unfolding new_player
  buff_packets-deadlock = (
    record { player = full; held = true; publisher = inside packet; reader = leaving },
    Reachable.step (Reachable.step (fill room (omega arith)) (Step.lock_send packet)) Step.leave,
    refl,
    refl,
    λ t. stuck_for_good (
        waiting
          (buff_packets-full packet full refl refl (omega (arith, length-replicate room packet)))),
  )
    where
      room : ℕ
      room = (new_player c size wait).packet_buf_size

      full : Player
      full = filled (new_player c size wait) packet room
