-- ===== src/Server/Player/Sending.antt =====
-- What sendAvPacket queues, and that flushAvPacket sends all of it.
use fastlive.Base.{ℕ, ◌+◌, ◌^◌, ◌≤◌, ◌<◌, ◌≡◌, refl, sym, ap, arith, subst}
use fastlive.Base.{List, [], ◌++◌, length, All, ◌⊎◌, false, ◌==◌}
use fastlive.Base.{Outcome, ok, eq→==, ne→==, le→ltb, length-append}
use fastlive.Chunk.Bytes.{basic_bytes}
use fastlive.Chunk.{Chunk}
use fastlive.Connection.{Connection, contents}
use fastlive.Connection.Send.Wire.{wire}
use fastlive.Connection.Send.Refine.{Ready, IsSendable, basic_size, queue}
use fastlive.Connection.Send.Whole.{send_integral_message-wire}
use fastlive.Connection.RoundTrip.Delivery.{flush-contents}
use fastlive.Av.{Packet, meta_data}
use fastlive.Server.Player.{
  Player, update_base_timestamp, packet_timestamp, packet_type_id, packet_csid, packet_message,
  send_av_packet, flush_av_packet,
}
use fastlive.Server.Player.Timestamps.{IsMedia}

-- The count of bytes is that of the bytes that wait in the connection.
unfoldable pub IsBalanced : Player → Type 0
IsBalanced p = p.bytes_count ≡ length (contents p.conn.write_buf)

-- A media packet with data, and a connection that can take it.
pub record Takes (p : Player) (packet : Packet) : Type 0 where
  pub media : IsMedia packet
  pub not_empty : 0 < length packet.bytes
  pub bound : length packet.bytes < 2 ^ 32
  pub chunk_size : 0 < p.conn.local_chunk_size
  pub ready : All (Ready 1) p.conn.encode_hdr_pool

-- The player once the packet's message, of `n` bytes, is queued in `c`.
abbrev queued_player : Packet → Player → Connection → ℕ → Player
queued_player packet p c n =
    record (update_base_timestamp (packet_type_id packet.packet_type) (packet_timestamp packet p)
      p) { conn = c; bytes_count = p.bytes_count + n; msg_count = p.msg_count + 1 }

media_csid :
    (packet : Packet)
    → IsMedia packet
    → (packet_csid packet.packet_type ≡ 4) ⊎ (packet_csid packet.packet_type ≡ 6)
unfolding packet_csid
media_csid packet m = ground (arith, m)

small_csid : (csid : ℕ) → (csid ≡ 4) ⊎ (csid ≡ 6) → length (basic_bytes 0 csid) ≡ 1
unfolding basic_bytes
small_csid csid h = ground (arith, h)

-- Sending queues the wire form of the packet's message behind what waits already; the count of
-- bytes stays right, and the pool ready for more.
pub send_av_packet-wire :
    (reform : List ℕ → Outcome (List ℕ)) (packet : Packet) (p : Player)
    → Takes p packet
    → IsBalanced p
    → (q : Player) × (send_av_packet reform packet p ≡ ok q)
      × (contents q.conn.write_buf
          ≡ contents p.conn.write_buf
            ++ wire (packet_message packet packet.bytes p) p.conn.local_chunk_size)
      × (q.msg_count ≡ p.msg_count + 1)
      × IsBalanced q
      × All (Ready 1) q.conn.encode_hdr_pool
unfolding send_av_packet IsBalanced packet_message update_base_timestamp
send_av_packet-wire reform packet p t b =
    let (buf, pool, run, q) =
      send_integral_message-wire msg p.conn sendable (omega (arith, t))
        (subst (λ n. All (Ready n) p.conn.encode_hdr_pool) (sym one_byte) t.ready) in
    (
      queued_player packet p (queue p.conn buf pool) (length (wire msg p.conn.local_chunk_size)),
      rw (data_kept, run) refl,
      q.queued,
      refl,
      omega (
        arith,
        b,
        ap length q.queued,
        length-append (contents p.conn.write_buf) (wire msg p.conn.local_chunk_size),
      ),
      subst (λ n. All (Ready n) pool) one_byte q.rest,
    )
  where
    msg : Chunk
    msg = packet_message packet packet.bytes p

    data_kept : (packet.packet_type == meta_data) ≡ false
    data_kept = ground (arith, t.media)

    csid : (msg.csid ≡ 4) ⊎ (msg.csid ≡ 6)
    csid = media_csid packet t.media

    one_byte : basic_size msg ≡ 1
    one_byte = small_csid msg.csid csid

    sendable : IsSendable msg p.conn.local_chunk_size
    sendable = record {
      csid_lo = ground (arith, csid);
      csid_hi = ground (arith, csid);
      whole = omega (arith, t);
      bound = omega arith;
      pos_size = t.chunk_size;
    }

-- When messages wait and the time has come, a flush hands the socket everything that was queued and
-- sets the counts back; the check of the count against what was written does not fail.
pub flush_av_packet-all :
    (elapsed : ℕ) (p : Player)
    → IsBalanced p
    → 0 < p.msg_count
    → 0 < p.bytes_count
    → p.mw_wait_time ≤ elapsed
    → p.bytes_count ≤ p.conn.room
    → (q : Player) × (flush_av_packet elapsed p ≡ ok q)
      × (q.conn.sent ≡ p.conn.sent ++ contents p.conn.write_buf)
      × (q.conn.write_buf ≡ [])
      × (q.msg_count ≡ 0)
      × IsBalanced q
unfolding flush_av_packet IsBalanced
flush_av_packet-all elapsed p b some_message some_byte time room =
    let (c, flushed, sent, cleared) =
      flush-contents p.conn (omega (arith, b, some_byte)) (omega (arith, b, room)) in
    (
      record p { conn = c; msg_count = 0; bytes_count = 0 },
      rw
          (
            ne→== p.msg_count 0 (omega arith),
            le→ltb elapsed p.mw_wait_time time,
            flushed,
            eq→== _ p.bytes_count (sym b),
          )
          refl,
      sent,
      cleared,
      refl,
      sym (ap (λ buf. length (contents buf)) cleared),
    )
