-- ===== src/Server/Player/Mutex/Advance.antt =====
-- What keeps a publisher from waiting for ever: a player that takes packets.
use fastlive.Base.{
  ℕ, ◌<◌, ◌≤◌, ◌≡◌, refl, sym, ap, subst, arith, List, [], ◌∷◌, ◌++◌, length, length-append, true,
  false, Bool-cases, inl, inr, some, ok, leb, ◌⊎◌,
}
use fastlive.Connection.{Connection}
use fastlive.Av.{Packet}
use fastlive.Server.Player.{Player, new_player, done, buff_packets, next_packet}
use fastlive.Server.Player.Mutex.{
  IsExclusive, free, sending, shutting, Reachable-IsExclusive, State, Step, Reachable, outside,
  inside, playing, gone,
}
use fastlive.Server.Player.Mutex.Deadlock.{buff_packets-room}

-- While nobody has closed it, a queue is open and holds no more than its size, which is not 0.
pub record IsOpen (p : Player) : Type 0 where
  pub not_closed : p.buffer_closed ≡ 0
  pub not_shut : p.channel_closed ≡ false
  pub bound : length p.packet_buffer ≤ p.packet_buf_size
  pub pos_size : 0 < p.packet_buf_size

-- Until the reader closes it.
abbrev OpenUntilGone : State → Type 0
OpenUntilGone s = (s.reader ≡ gone) ⊎ IsOpen s.player

buff_packets-IsOpen :
    (packet : Packet) (p q : Player) → IsOpen p → buff_packets packet p ≡ ok (done q) → IsOpen q
unfolding buff_packets
buff_packets-IsOpen packet p q o e =
    elim (Bool-cases (leb p.packet_buf_size (length p.packet_buffer))) [
      | inl full ↦ ground (arith, o, full, e)
      | inr room ↦
          subst IsOpen
            (let made : record p { packet_buffer = p.packet_buffer ++ (packet ∷ []) } ≡ q =
                ground (arith, o, room, e) in
              made)
            (record {
              not_closed = o.not_closed;
              not_shut = o.not_shut;
              bound = ground (arith, room, length-append p.packet_buffer (packet ∷ []));
              pos_size = o.pos_size;
            })
    ]

next_packet-IsOpen :
    (packet : Packet) (p q : Player) → IsOpen p → next_packet p ≡ done (some packet, q) → IsOpen q
unfolding next_packet
next_packet-IsOpen packet p q o e = by_buffer p.packet_buffer refl
  where
    by_buffer : (l : List Packet) → p.packet_buffer ≡ l → IsOpen q
    by_buffer [] h = ground (arith, h, e)
    by_buffer (x ∷ rest) h =
        let left : record p { packet_buffer = rest } ≡ q = ground (arith, h, e) in
        subst IsOpen left (record {
          not_closed = o.not_closed;
          not_shut = o.not_shut;
          bound = omega (arith, o.bound, ap length h);
          pos_size = o.pos_size;
        })

Step-OpenUntilGone : {s t : State} → OpenUntilGone s → Step s t → OpenUntilGone t
Step-OpenUntilGone (inl at) (Step.lock_send packet) = inl at
Step-OpenUntilGone (inl at) (Step.send e) = inl at
Step-OpenUntilGone (inl at) (Step.receive e) = absurd (cc)
Step-OpenUntilGone (inl at) Step.leave = absurd (cc)
Step-OpenUntilGone (inl at) Step.lock_close = absurd (cc)
Step-OpenUntilGone (inl at) (Step.close e) = inl refl
Step-OpenUntilGone (inr o) (Step.lock_send packet) = inr o
Step-OpenUntilGone (inr o) (Step.send {packet = packet} e) =
    inr (buff_packets-IsOpen packet _ _ o e)
Step-OpenUntilGone (inr o) (Step.receive {packet = packet} e) =
    inr (next_packet-IsOpen packet _ _ o e)
Step-OpenUntilGone (inr o) Step.leave = inr o
Step-OpenUntilGone (inr o) Step.lock_close = inr o
Step-OpenUntilGone (inr o) (Step.close e) = inl refl

new_player-IsOpen : (c : Connection) (size wait : ℕ) → IsOpen (new_player c size wait)
unfolding new_player
new_player-IsOpen c size wait = record {
  not_closed = refl;
  not_shut = refl;
  bound = omega arith;
  pos_size = ground arith;
}

Reachable-OpenUntilGone : {p : Player} {s : State} → IsOpen p → Reachable p s → OpenUntilGone s
Reachable-OpenUntilGone o Reachable.begin = inr o
Reachable-OpenUntilGone o (Reachable.step r k) = Step-OpenUntilGone (Reachable-OpenUntilGone o r) k

-- Two steps at most, to a state in which the publisher is outside.
pub data ComesOut (s : State) : Type 0 where
  at_once : {t : State} → Step s t → t.publisher ≡ outside → ComesOut s
  in_two : {t u : State} → Step s t → Step t u → u.publisher ≡ outside → ComesOut s

come_out :
    (p : Player) (packet : Packet) (waiting : List Packet)
    → IsOpen p
    → p.packet_buffer ≡ waiting
    → ComesOut (record { player = p; held = true; publisher = inside packet; reader = playing })
unfolding next_packet
come_out p packet [] o e =
    at_once
      (Step.send (
        buff_packets-room packet p o.not_closed o.not_shut
          (omega (arith, o.pos_size, ap length e))))
      refl
come_out p packet (x ∷ rest) o e =
    in_two
      (Step.receive {q = record p { packet_buffer = rest }} {packet = x} (rw (next_packet, e) refl))
      (Step.send (
        buff_packets-room packet (record p { packet_buffer = rest }) o.not_closed o.not_shut
          (omega (arith, o.bound, ap length e))))
      refl

-- While a player is in its loop, a publisher that has gone into buffPackets can come out of it: in
-- every state that a new player can reach it takes one step, or a packet that the player takes and
-- one step.
pub buff_packets-ComesOut :
    (c : Connection) (size wait : ℕ) (packet : Packet) (s : State)
    → Reachable (new_player c size wait) s
    → s.publisher ≡ inside packet
    → s.reader ≡ playing
    → ComesOut s
buff_packets-ComesOut c size wait packet s r at loop =
    by_holder s (Reachable-IsExclusive r)
      (Reachable-OpenUntilGone (new_player-IsOpen c size wait) r) at loop
  where
    by_holder :
        (s : State)
        → IsExclusive s
        → OpenUntilGone s
        → s.publisher ≡ inside packet
        → s.reader ≡ playing
        → ComesOut s
    by_holder _ (free n) o at loop = absurd (cc)
    by_holder _ (sending n) (inl left) at loop = absurd (cc)
    by_holder _ (sending {p = p} {packet = k} {r = reader} n) (inr o) at loop =
        subst (λ r. ComesOut (record { player = p; held = true; publisher = inside k; reader = r }))
          (sym loop) (come_out p k p.packet_buffer o refl)
    by_holder _ shutting o at loop = absurd (cc)
