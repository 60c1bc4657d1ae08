-- ===== src/Connection/RoundTrip/Delivery.antt =====
-- A message from one connection's SendIntegralMessage to another's RecvIntegralMessage.
use fastlive.Base.{ℕ, ◌-◌, ◌≤◌, ◌<◌, ◌≡◌, refl, ◌∙◌, arith}
use fastlive.Base.{
  List, [], ◌∷◌, ◌++◌, length, take, drop, All, ok, ◌/◌, ◌≢◌, leb, Bool-cases, inl, inr,
}
use fastlive.Base.{length-append, le→leb, ne→==, leb→le, leb→lt}
use fastlive.Chunk.{Chunk}
use fastlive.Chunk.Bytes.{header_bytes}
use fastlive.Connection.{Connection, flush, contents, evens}
use fastlive.Connection.Send.{send_integral_message}
use fastlive.Connection.Send.Wire.{wire, next_header, first_chunk_bytes, chunks}
use fastlive.Connection.Send.{chunk_header}
use fastlive.Chunk.Slice.{Slice}
use fastlive.Chunk.EncodeLaws.{length-header_bytes}
use fastlive.Connection.Send.Refine.{Ready, IsSendable, basic_size, queue}
use fastlive.Connection.Send.Whole.{send_integral_message-wire}
use fastlive.Connection.Receive.{recv_integral_message}
use fastlive.Connection.Receive.Read.{fed}
use fastlive.Connection.Receive.Chunk.{stored}
use fastlive.Connection.RoundTrip.{behind, IsReceivable, arrived}
use fastlive.Connection.RoundTrip.Message.{receive-short, receive-long}

-- RecvIntegralMessage on the wire form of a message returns the message: the sent header fields
-- and data, on the chunk stream of its id, which is whole. The message is not empty and its header
-- fits the encoding, with a timestamp below 0xffffff; its chunk stream at the receiver is between
-- messages and has had no extended timestamp. What is left of the input is what came
-- behind the wire form and, where the chunk size goes into a longer message without a rest, the
-- last chunk's header before it. Of the connection only the input and that stream change.
pub recv_integral_message-wire :
    (msg : Chunk) (c : Connection) (rest : List ℕ)
    → IsReceivable msg c
    → recv_integral_message (fed c (wire msg c.remote_chunk_size ++ rest))
      ≡ ok (
        (msg.csid, arrived msg c),
        fed (stored msg.csid (arrived msg c) c) (behind msg c.remote_chunk_size ++ rest),
      )
unfolding wire behind
recv_integral_message-wire msg c rest v =
    elim (Bool-cases (leb msg.message_length c.remote_chunk_size)) [
      | inl short ↦ rw short (receive-short msg c rest v (leb→le _ _ short))
      | inr long ↦ rw long (receive-long msg c rest v (leb→lt _ _ long))
    ]

pub length-wire : (msg : Chunk) (size : ℕ) → 0 < length (wire msg size)
unfolding wire
length-wire msg size = ground (
  arith,
  length-append (header_bytes (chunk_header msg 0)) (take size msg.chunk_data),
  length-append (first_chunk_bytes msg size)
      (chunks (next_header msg) size (msg.message_length / size) (drop size msg.chunk_data)),
  length-header_bytes (chunk_header msg 0),
)

queue-not-empty : (ps : List Slice) → 0 < length (contents ps) → length ps ≢ 0
queue-not-empty [] h = absurd (omega arith)
queue-not-empty (p ∷ ps) h = omega arith

-- Flush hands the socket what is queued and returns its length.
pub flush-contents :
    (c : Connection)
    → 0 < length (contents c.write_buf)
    → length (contents c.write_buf) ≤ c.room
    → (c' : Connection) × (flush c ≡ ok (length (contents c.write_buf), c'))
      × (c'.sent ≡ c.sent ++ contents c.write_buf)
      × (c'.write_buf ≡ [])
unfolding flush
flush-contents c h room = (
  record c {
    room = c.room - length (contents c.write_buf);
    sent = c.sent ++ contents c.write_buf;
    write_buf = [];
    encode_hdr_pool = evens c.write_buf ++ c.encode_hdr_pool;
  },
  rw
      (
        ne→== (length c.write_buf) 0 (queue-not-empty c.write_buf h),
        le→leb (length (contents c.write_buf)) c.room room,
      )
      refl,
  refl,
  refl,
)

-- Sending a message on a connection that has nothing queued, a socket with room for it and a
-- pool of ready buffers, and flushing, hands the socket bytes from which a connection whose
-- remote chunk size is the sender's local one receives that message, whatever comes behind; both
-- calls of the sender report the number of those bytes. The message is not empty and its header
-- fits the encoding, with a timestamp below 0xffffff; its chunk stream at the receiver is between
-- messages and has had no extended timestamp.
pub send-flush-receive :
    (msg : Chunk) (c r : Connection) (rest : List ℕ)
    → IsReceivable msg r
    → r.remote_chunk_size ≡ c.local_chunk_size
    → c.write_buf ≡ []
    → length (wire msg c.local_chunk_size) ≤ c.room
    → All (Ready (basic_size msg)) c.encode_hdr_pool
    → (bytes : List ℕ) × (c₁ : Connection) × (c₂ : Connection) × (send_integral_message msg c
        ≡ ok (length bytes, c₁))
      × (flush c₁ ≡ ok (length bytes, c₂))
      × (c₂.sent ≡ c.sent ++ bytes)
      × (c₂.write_buf ≡ [])
      × (recv_integral_message (fed r (bytes ++ rest))
          ≡ ok (
            (msg.csid, arrived msg r),
            fed (stored msg.csid (arrived msg r) r) (behind msg r.remote_chunk_size ++ rest),
          ))
send-flush-receive msg c r rest v same empty room ready =
    let (buf, pool, run, q) = send_integral_message-wire msg c sendable v.not_empty ready in
    let all : contents buf ≡ wire msg size = q.queued ∙ rw empty refl in
    let (c₂, flushed, sent, cleared) =
      flush-contents (queue c buf pool) (rw all (length-wire msg size)) (rw all room) in
    (
      wire msg size,
      queue c buf pool,
      c₂,
      run,
      rw all at flushed,
      rw all at sent,
      cleared,
      rw (← same) (recv_integral_message-wire msg r rest v),
    )
  where
    size : ℕ
    size = c.local_chunk_size

    sendable : IsSendable msg size
    sendable = record {
      csid_lo = v.csid_lo;
      csid_hi = omega (arith, v);
      whole = v.whole;
      bound = omega (arith, v);
      pos_size = omega (arith, v, same);
    }
