-- ===== src/Connection/Receive.antt =====
-- RecvIntegralMessage and the functions that it is made of.
pub mod Read
pub mod Header
pub mod Body
pub mod Chunk
pub mod Sound
pub mod Keeps
pub mod Total
pub mod Refused
use fastlive.Base.{ℕ, zero, suc, ◌+◌, ◌-◌, ◌*◌, ◌/◌, ◌%◌, ◌^◌, Bool, true, false, List, [], ◌∷◌}
use fastlive.Base.{ltb, leb, ◌==◌, ◌&&◌, ◌||◌, not, if◌then◌else◌, length, take, drop, replicate}
use fastlive.Base.{overwrite, none, some, Outcome, ok, err, panic, stuck}
use fastlive.Base.{bad_init_fmt, not_integral, length_mismatch}
use fastlive.Common.{bytes_as_uint32, fmt_to_message_hdr_size}
use fastlive.Chunk.{Stream, new_stream, with_timestamp, with_length_type, with_stream_id, with_data}
use fastlive.Connection.{
  Connection, M, ◌>>=◌, pure, lift, find, store, read, peek, discard, read_bytes_as_uint32,
}

-- readChunkBasicHeader: the format and the chunk stream id.
unfoldable pub read_chunk_basic_header : M (ℕ × ℕ)
read_chunk_basic_header = do
  h ← read_bytes_as_uint32 1 true
  let fmt = h / 2 ^ 6 % 2 ^ 8
  let csid = h % 64
  if csid == 0 || csid == 1
      then (do id ← read_bytes_as_uint32 (1 + csid) false; pure (fmt, (id + 64) % 2 ^ 32))
      else pure (fmt, csid)

-- The two checks at the head of readChunkMessageHeader.
unfoldable pub check_fmt : Stream → ℕ → Outcome (Unit {0})
check_fmt msg fmt =
    if msg.first_chunk && ltb 0 fmt && not (msg.csid == 2 && fmt == 1)
    then err bad_init_fmt
    else if ltb 0 msg.has_read && fmt == 0
    then err not_integral
    else ok tt

-- The timestamp (or its delta) of a header of format 0, 1 or 2.
unfoldable pub parse_timestamp : Stream → ℕ → List ℕ → Stream
parse_timestamp msg fmt hdr =
    let timestamp = bytes_as_uint32 (take 3 hdr) true in
    let extended = if leb 0xffffff timestamp then true else msg.is_extended_timestamp in
    let msg = record msg { timestamp_delta = timestamp; is_extended_timestamp = extended } in
    if not extended
    then (if fmt == 0
        then with_timestamp timestamp msg
        else with_timestamp ((msg.timestamp + timestamp) % 2 ^ 32) msg)
    else msg

-- The rest of a header of format 0 or 1.
unfoldable pub parse_length_type : Stream → ℕ → List ℕ → Outcome Stream
parse_length_type msg fmt hdr =
    let payload_length = bytes_as_uint32 (take 3 (drop 3 hdr)) true in
    let type_id = bytes_as_uint32 (take 1 (drop 6 hdr)) true in
    if ltb 0 msg.has_read && not (msg.message_length == payload_length)
    then err length_mismatch
    else if fmt == 0
    then ok (
        with_stream_id (bytes_as_uint32 (take 4 (drop 7 hdr)) false)
          (with_length_type payload_length type_id msg))
    else ok (with_length_type payload_length type_id msg)

-- The decoding of the message header's bytes.
unfoldable pub parse_header : Stream → ℕ → List ℕ → Outcome Stream
parse_header msg fmt hdr =
    if leb fmt 2
    then (if leb fmt 1
        then parse_length_type (parse_timestamp msg fmt hdr) fmt hdr
        else ok (parse_timestamp msg fmt hdr))
    else ok (
        if msg.first_chunk && not msg.is_extended_timestamp
        then with_timestamp ((msg.timestamp + msg.timestamp_delta) % 2 ^ 32) msg
        else msg)

-- The four bytes of an extended timestamp, if the chunk has them.
unfoldable pub read_extended_timestamp : Stream → M Stream
read_extended_timestamp msg =
    if msg.is_extended_timestamp
    then (do
      buffer ← peek 4
      let extended = bytes_as_uint32 buffer true % 2 ^ 31
      if not msg.first_chunk && ltb 0 msg.timestamp && not (msg.timestamp == extended)
          then pure msg
          else (do _ ← discard 4; pure (with_timestamp extended msg)))
    else pure msg

-- readChunkMessageHeader. Its last lines mask a copy of the timestamp and drop the result.
unfoldable pub read_chunk_message_header : Stream → ℕ → M Stream
read_chunk_message_header msg fmt = do
  _ ← lift (check_fmt msg fmt)
  hdr ← read (fmt_to_message_hdr_size fmt)
  msg ← lift (parse_header msg fmt hdr)
  msg ← read_extended_timestamp msg
  pure (record msg { first_chunk = false })

-- The bytes that readChunkMessageBody asks for: uint32 arithmetic, bounded by the chunk size.
abbrev pub body_size : Stream → ℕ → ℕ
body_size msg remote =
    let size : ℕ = (msg.message_length + 2 ^ 32 - msg.has_read) % 2 ^ 32 in
    if ltb remote size then remote else size

-- `make([]byte, messageLength)` at the start of a message.
abbrev pub body_data : Stream → List ℕ
body_data msg = if msg.has_read == 0 then replicate msg.message_length 0 else msg.chunk_data

-- The state of a stream after `size` more bytes of its message.
abbrev pub after_body : Stream → ℕ → List ℕ → Stream
after_body msg size bytes =
    let has_read : ℕ = (msg.has_read + size) % 2 ^ 32 in
    record (with_data (overwrite (body_data msg) msg.has_read bytes) msg) {
      has_read = has_read;
      is_intergral = if has_read == msg.message_length then true else msg.is_intergral;
    }

-- readChunkMessageBody. The sub-slice `msg.ChunkData[msg.HasRead : msg.HasRead+size]` panics
-- where it does not fit.
unfoldable pub read_chunk_message_body : Stream → M Stream
read_chunk_message_body msg c =
    let size = body_size msg c.remote_chunk_size in
    let hi = (msg.has_read + size) % 2 ^ 32 in
    if msg.message_length == 0
    then ok (record (with_data [] msg) { has_read = 0 }, c)
    else if leb msg.has_read hi && leb hi (length (body_data msg))
    then (do bytes ← read (hi - msg.has_read); pure (after_body msg size bytes)) c
    else panic

-- The stream of a chunk stream id, made anew at its first chunk. NewStream's error is dropped, and
-- the nil stream that comes with it is dereferenced at once.
unfoldable pub stream_of : ℕ → ℕ → M Stream
stream_of fmt csid c = elim (find csid c.messages) [
  | some msg ↦ ok (msg, c)
  | none ↦ elim (new_stream fmt csid true) [
    | ok msg ↦ ok (msg, record c { messages = store csid msg c.messages })
    | _ ↦ panic
  ]
]

-- One round of the loop of RecvIntegralMessage: one chunk. The stream is written back under its
-- key, since the map holds pointers.
unfoldable pub read_chunk : M (ℕ × Stream)
read_chunk = do
  (fmt, csid) ← read_chunk_basic_header
  msg ← stream_of fmt csid
  msg ← read_chunk_message_header msg fmt
  msg ← read_chunk_message_body msg
  λ c. ok ((csid, msg), record c { messages = store csid msg c.messages })

-- RecvIntegralMessage: the loop runs on fuel.
unfoldable pub receive_loop : ℕ → M (ℕ × Stream)
receive_loop zero c = stuck
receive_loop (suc fuel) c =
    (do
      (csid, msg) ← read_chunk
      λ c. elim msg.is_intergral [ true ↦ ok ((csid, msg), c) | false ↦ receive_loop fuel c ])
      c

-- Each round takes a byte of the input at least.
unfoldable pub recv_integral_message : M (ℕ × Stream)
recv_integral_message c = receive_loop (suc (length c.input)) c
