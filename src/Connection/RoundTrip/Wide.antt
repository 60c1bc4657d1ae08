-- ===== src/Connection/RoundTrip/Wide.antt =====
-- A message whose timestamp does not fit three bytes: SendIntegralMessage writes 0xffffff and no
-- extended timestamp, and RecvIntegralMessage takes the first four bytes of data for one.
use fastlive.Base.{ℕ, ◌%◌, ◌^◌, ◌≤◌, ◌≡◌}
use fastlive.Base.{List, ◌++◌, length, true}
use fastlive.Common.{bytes_as_uint32}
use fastlive.Chunk.{Chunk, MessageHeader, Stream}
use fastlive.Connection.{Connection}
use fastlive.Connection.Receive.Header.{FitsBehind, IsIdle, headed, bytes}
use fastlive.Connection.Receive.Chunk.{stream_at, stored}

-- The stream `s` with the header `mh`, but for the timestamp, which is that of the four bytes `w`.
abbrev pub mistimed : Stream → MessageHeader → List ℕ → Stream
mistimed s mh w = record (headed s (record mh { timestamp = bytes_as_uint32 w true % 2 ^ 31 })) {
  timestamp_delta = 0xffffff;
  is_extended_timestamp = true;
}

-- A message of one chunk for a chunk stream on which nothing has been received: its data begins with
-- the four bytes `w`, and its timestamp does not fit the header.
pub record IsWide (msg : Chunk) (c : Connection) (w body : List ℕ) : Type 0 where
  pub wide : 0xffffff ≤ msg.timestamp
  pub others : FitsBehind msg.message_header
  pub csid_lo : 2 ≤ msg.csid
  pub csid_hi : msg.csid ≤ 65559
  pub begins : msg.chunk_data ≡ w ++ body
  pub four : length w ≡ 4
  pub whole : length msg.chunk_data ≡ msg.message_length
  pub one_chunk : msg.message_length ≤ c.remote_chunk_size
  pub idle : IsIdle (stream_at 0 msg.csid c.messages)
  pub new : (stream_at 0 msg.csid c.messages).first_chunk ≡ true

-- The stream on which it arrives: its data is that behind `w`, filled up with what came next.
abbrev pub garbled : Chunk → Connection → List ℕ → List ℕ → Stream
garbled msg c w bytes = record (mistimed (stream_at 0 msg.csid c.messages) msg.message_header w) {
  chunk = record (mistimed (stream_at 0 msg.csid c.messages) msg.message_header w).chunk {
    chunk_data = bytes;
  };
  has_read = length bytes;
  is_intergral = true;
}

module _ (msg : Chunk) (c : Connection) (w body next more : List ℕ) (v : IsWide msg c w body)
    (four : length next ≡ 4) where
  abbrev s : Stream
  s = stream_at 0 msg.csid c.messages

  abbrev got : List ℕ
  got = body ++ next

  abbrev begun : Connection
  begun = stored msg.csid s c
