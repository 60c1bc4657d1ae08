-- ===== src/Connection/Handlers.antt =====
-- connection.go: what the connection does with the control messages that it receives, and the
-- agreement on the chunk size that comes of it.
use fastlive.Base.{ℕ, ◌^◌, ◌≤◌, ◌<◌, ◌≡◌, refl, ◌∙◌, arith, List, [], ◌++◌}
use fastlive.Base.{length, All, ok, true}
use fastlive.Common.{bytes_as_uint32, uint_as_bytes, uint_bytes_big}
use fastlive.Chunk.Bytes.{basic_bytes}
use fastlive.Common.Bytes.{bytes_as_uint32-uint_as_bytes, length-uint_as_bytes}
use fastlive.Chunk.{Chunk, Stream, msg_set_chunk_size}
use fastlive.Chunk.Message.{new_chunk, new_procotol_control_message}
use fastlive.Connection.{Connection, flush}
use fastlive.Connection.Send.{send_integral_message}
use fastlive.Connection.Send.Wire.{wire}
use fastlive.Connection.Send.Refine.{Ready}
use fastlive.Connection.Receive.{recv_integral_message}
use fastlive.Connection.Receive.Read.{fed}
use fastlive.Connection.Receive.Header.{IsIdle}
use fastlive.Connection.Receive.Chunk.{stream_at}
use fastlive.Connection.RoundTrip.{IsReceivable, arrived}
use fastlive.Connection.RoundTrip.Delivery.{send-flush-receive}

-- HandleSetChunkSizeMessage.
unfoldable pub handle_set_chunk_size_message : Stream → Connection → Connection
handle_set_chunk_size_message msg c = record c {
  remote_chunk_size = bytes_as_uint32 msg.chunk_data true;
}

-- ResponseAcknowledgementMessage, HandleAcknowledgementMessage and
-- HandleWindowAcknowledgementSizeMessage do nothing yet.
unfoldable pub response_acknowledgement_message : Connection → Connection
response_acknowledgement_message c = c

unfoldable pub handle_acknowledgement_message : Stream → Connection → Connection
handle_acknowledgement_message msg c = c

unfoldable pub handle_window_acknowledgement_size_message : Stream → Connection → Connection
handle_window_acknowledgement_size_message msg c = c

-- The message that announces the chunk size `size`.
abbrev pub chunk_size_message : ℕ → Chunk
chunk_size_message size = new_chunk 2 4 msg_set_chunk_size 0 (uint_as_bytes size 4 true)

new_procotol_control_message-chunk_size :
    (size : ℕ)
    → new_procotol_control_message msg_set_chunk_size 4 size ≡ ok (chunk_size_message size)
unfolding new_procotol_control_message uint_as_bytes uint_bytes_big
new_procotol_control_message-chunk_size size = refl

-- A chunk size that a connection announces by its control message is the remote chunk size of
-- the peer, once the peer has received the message and handled it.
pub handle_set_chunk_size_message-announced :
    (size : ℕ) (c r : Connection) (rest : List ℕ)
    → size < 2 ^ 32
    → IsIdle (stream_at 0 2 r.messages)
    → 0 < r.remote_chunk_size
    → r.remote_chunk_size ≡ c.local_chunk_size
    → c.write_buf ≡ []
    → length (wire (chunk_size_message size) c.local_chunk_size) ≤ c.room
    → All (Ready 1) c.encode_hdr_pool
    → (msg : Chunk) × (bytes : List ℕ) × (c₁ : Connection) × (c₂ : Connection) × (s : Stream)
      × (r₁ : Connection) × (new_procotol_control_message msg_set_chunk_size 4 size ≡ ok msg)
      × (send_integral_message msg c ≡ ok (length bytes, c₁))
      × (flush c₁ ≡ ok (length bytes, c₂))
      × (c₂.sent ≡ c.sent ++ bytes)
      × (recv_integral_message (fed r (bytes ++ rest)) ≡ ok ((2, s), r₁))
      × ((handle_set_chunk_size_message s r₁).remote_chunk_size ≡ size)
unfolding handle_set_chunk_size_message basic_bytes
handle_set_chunk_size_message-announced size c r rest h idle pos same empty room ready =
    let (bytes, c₁, c₂, sent, flushed, out, _, got) =
      send-flush-receive (chunk_size_message size) c r rest receivable same empty room ready in
    (
      chunk_size_message size,
      bytes,
      c₁,
      c₂,
      arrived (chunk_size_message size) r,
      _,
      new_procotol_control_message-chunk_size size,
      sent,
      flushed,
      out,
      got,
      bytes_as_uint32-uint_as_bytes size 4 true (omega arith) ∙ omega (arith, h),
    )
  where
    receivable : IsReceivable (chunk_size_message size) r
    receivable = record {
      fits = record {
        short_timestamp = omega arith;
        length_fits = omega arith;
        type_fits = omega arith;
        stream_fits = omega arith;
      };
      csid_lo = omega arith;
      csid_hi = omega arith;
      whole = length-uint_as_bytes size 4 true;
      not_empty = omega arith;
      chunk_size = pos;
      idle = idle;
    }
