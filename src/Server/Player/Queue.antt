-- ===== src/Server/Player/Queue.antt =====
-- The packets that wait for a player: what the publisher, the player and those who close the queue
-- do in any order.
use fastlive.Base.{ℕ, ◌+◌, ◌≤◌, ◌≡◌, ◌≢◌, refl, sym, ap, ◌∙◌, arith, List, [], ◌∷◌, ◌++◌, length}
use fastlive.Base.{true, false, if◌then◌else◌, ◌==◌, ◌⊎◌, inl, inr, some, append_assoc}
use fastlive.Base.{ok, panic, length-append, append-nil, Bool-cases, subst}
use fastlive.Connection.{Connection}
use fastlive.Av.{Packet}
use fastlive.Server.Player.{
  Player, new_player, done, buff_packets, close_packet_buffer, next_packet,
}

-- The packets that buffPackets is asked to queue are dropped once the queue is closed.
abbrev accepted : Packet → Player → List Packet
accepted packet p = if p.buffer_closed == 1 then [] else packet ∷ []

-- A player after any steps on its queue: the packets that it accepted and those that it took.
pub data Queue : List Packet → List Packet → Player → Type 0 where
  fresh : (c : Connection) (size wait : ℕ) → Queue [] [] (new_player c size wait)
  buffer :
      (packet : Packet) {ins outs : List Packet} {p q : Player}
      → Queue ins outs p
      → buff_packets packet p ≡ ok (done q)
      → Queue (ins ++ accepted packet p) outs q
  take_one :
      (packet : Packet) {ins outs : List Packet} {p q : Player}
      → Queue ins outs p
      → next_packet p ≡ done (some packet, q)
      → Queue ins (outs ++ (packet ∷ [])) q
  shut :
      {ins outs : List Packet} {p q : Player}
      → Queue ins outs p
      → close_packet_buffer p ≡ ok q
      → Queue ins outs q

-- Order is kept, nothing is lost, the queue's bound is kept, and the flag says whether the channel
-- is closed.
pub record IsOrderly (ins outs : List Packet) (p : Player) : Type 0 where
  pub order : ins ≡ outs ++ p.packet_buffer
  pub bound : length p.packet_buffer ≤ p.packet_buf_size
  pub flags :
      ((p.buffer_closed ≡ 0) × (p.channel_closed ≡ false))
      ⊎ ((p.buffer_closed ≡ 1) × (p.channel_closed ≡ true))

buffer-IsOrderly :
    (packet : Packet) (ins outs : List Packet) (p q : Player)
    → IsOrderly ins outs p
    → buff_packets packet p ≡ ok (done q)
    → IsOrderly (ins ++ accepted packet p) outs q
unfolding buff_packets
buffer-IsOrderly packet ins outs p q i e = elim (Bool-cases (p.buffer_closed == 1)) [
  | inl closed ↦
      let same : p ≡ q = ground (arith, closed, e) in
      subst (IsOrderly (ins ++ accepted packet p) outs) same (rw (closed, append-nil ins) i)
  | inr opened ↦
      let added : record p { packet_buffer = p.packet_buffer ++ (packet ∷ []) } ≡ q =
        ground (arith, opened, i.flags, e) in
      let room : length p.packet_buffer + 1 ≤ p.packet_buf_size =
        ground (arith, opened, i.flags, e) in
      subst (IsOrderly (ins ++ accepted packet p) outs) added (record {
        order = rw opened (
            ap (λ l. l ++ (packet ∷ [])) i.order ∙ append_assoc outs p.packet_buffer (packet ∷ []));
        bound = omega (arith, room, length-append p.packet_buffer (packet ∷ []));
        flags = i.flags;
      })
]

take_one-IsOrderly :
    (packet : Packet) (ins outs : List Packet) (p q : Player)
    → IsOrderly ins outs p
    → next_packet p ≡ done (some packet, q)
    → IsOrderly ins (outs ++ (packet ∷ [])) q
unfolding next_packet
take_one-IsOrderly packet ins outs p q i e = by_buffer p.packet_buffer refl
  where
    by_buffer :
        (waiting : List Packet)
        → p.packet_buffer ≡ waiting
        → IsOrderly ins (outs ++ (packet ∷ [])) q
    by_buffer [] h = ground (arith, h, e)
    by_buffer (k ∷ rest) h =
        let first : k ≡ packet = ground (arith, h, e) in
        let left : record p { packet_buffer = rest } ≡ q = ground (arith, h, e) in
        subst (IsOrderly ins (outs ++ (packet ∷ []))) left (record {
          order =
              i.order
              ∙ ap (λ l. outs ++ l) (h ∙ ap (λ x. x ∷ rest) first)
              ∙ sym (append_assoc outs (packet ∷ []) rest);
          bound = omega (arith, i.bound, ap length h);
          flags = i.flags;
        })

shut-IsOrderly :
    (ins outs : List Packet) (p q : Player)
    → IsOrderly ins outs p
    → close_packet_buffer p ≡ ok q
    → IsOrderly ins outs q
unfolding close_packet_buffer
shut-IsOrderly ins outs p q i e = record {
  order = ground (arith, i.order, e);
  bound = ground (arith, i.bound, e);
  flags = ground (arith, i.flags, e);
}

-- A new player's queue hands over what it accepted, in order; it never holds more than its size; its
-- flag tells whether the channel is closed.
pub Queue-IsOrderly :
    {ins outs : List Packet} {p : Player} → Queue ins outs p → IsOrderly ins outs p
unfolding new_player
Queue-IsOrderly (fresh c size wait) = record {
  order = refl;
  bound = omega arith;
  flags = inl (refl, refl);
}
Queue-IsOrderly (buffer packet {ins} {outs} {p} {q} h e) =
    buffer-IsOrderly packet ins outs p q (Queue-IsOrderly h) e
Queue-IsOrderly (take_one packet {ins} {outs} {p} {q} h e) =
    take_one-IsOrderly packet ins outs p q (Queue-IsOrderly h) e
Queue-IsOrderly (shut {ins} {outs} {p} {q} h e) = shut-IsOrderly ins outs p q (Queue-IsOrderly h) e

-- In every state of a player's queue, neither buffPackets sends on a closed channel nor
-- closePacketBuffer closes one.
pub Queue-no_panic :
    {ins outs : List Packet} {p : Player} (packet : Packet)
    → Queue ins outs p
    → (buff_packets packet p ≢ panic) × (close_packet_buffer p ≢ panic)
unfolding buff_packets close_packet_buffer
Queue-no_panic packet h =
    let flags = (Queue-IsOrderly h).flags in
    (λ e. ground (arith, flags, e), λ e. ground (arith, flags, e))
