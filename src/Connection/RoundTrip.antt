-- ===== src/Connection/RoundTrip.antt =====
-- What SendIntegralMessage queues, RecvIntegralMessage puts together again: the messages for
-- which that holds, and the state that it leaves.
pub mod Loop
pub mod Message
pub mod Delivery
pub mod Wide
use fastlive.Base.{
  ℕ, zero, suc, ◌+◌, ◌-◌, ◌*◌, ◌/◌, ◌%◌, ◌^◌, ◌≤◌, ◌<◌, ◌≡◌, refl, sym, ap, ap₂, ◌∙◌, arith, min,
}
use fastlive.Base.{List, [], ◌∷◌, ◌++◌, length, take, drop, ok, ltb, leb, ◌==◌, true, false}
use fastlive.Base.{
  Bool, take-nil, take-all, append-nil, append_assoc, length-append, length-take, length-drop,
  drop-drop, drop-all,
}
use fastlive.Base.{
  lt→ltb, le→leb, lt→leb, ne→==, eq→==, leb→le, leb→lt, Bool-cases, inl, inr, some, if◌then◌else◌,
}
use fastlive.Base.{last_piece, lt-suc_div-mul}
use fastlive.Chunk.{Chunk, Header, MessageHeader, Stream}
use fastlive.Chunk.Bytes.{header_bytes}
use fastlive.Chunk.EncodeLaws.{length-header_bytes}
use fastlive.Connection.{Connection, find}
use fastlive.Connection.Send.{chunk_header}
use fastlive.Connection.Send.Wire.{chunks, wire, next_header, first_chunk_bytes}
use fastlive.Connection.Receive.{read_chunk, receive_loop, recv_integral_message}
use fastlive.Connection.Receive.Read.{fed}
use fastlive.Connection.Receive.Header.{Fits, IsIdle, headed}
use fastlive.Connection.Receive.Body.{partial}
use fastlive.Connection.Receive.Chunk.{
  stream_at, stored, find-store, store-store, begun, Reads, UnderWay, read_chunk-first,
  read_chunk-next,
}

-- The last chunk's header where it has no data, and which no one reads.
unfoldable pub left_over : List ℕ → ℕ → ℕ → List ℕ
left_over h len size = if len % size == 0 then h else []

-- The stream `s` with the whole message of header `mh` and data `bytes`.
abbrev pub received : Stream → MessageHeader → List ℕ → Stream
received s mh bytes = record (headed s mh) {
  chunk = record s.chunk {
    header = record s.chunk.header { message_header = mh };
    chunk_data = bytes;
  };
  has_read = length bytes;
  is_intergral = true;
}

-- What the wire form of a message holds behind its last byte: a header without data, if the chunk
-- size goes into a longer length without a rest.
unfoldable pub behind : Chunk → ℕ → List ℕ
unfolding left_over
behind msg size =
    if leb msg.message_length size then [] else left_over (next_header msg) msg.message_length size

-- A message that fits the encoding, with a timestamp below 0xffffff, and is not empty, with its data,
-- for a peer's chunk stream that is between messages and has had no extended timestamp.
pub record IsReceivable (msg : Chunk) (c : Connection) : Type 0 where
  pub fits : Fits msg.message_header
  pub csid_lo : 2 ≤ msg.csid
  pub csid_hi : msg.csid ≤ 65559
  pub whole : length msg.chunk_data ≡ msg.message_length
  pub not_empty : 0 < msg.message_length
  pub chunk_size : 0 < c.remote_chunk_size
  pub idle : IsIdle (stream_at 0 msg.csid c.messages)

-- The stream on which `msg` arrives, with the message.
abbrev pub arrived : Chunk → Connection → Stream
arrived msg c = received (stream_at 0 msg.csid c.messages) msg.message_header msg.chunk_data
