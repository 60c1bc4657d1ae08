-- ===== src/Connection/Receive/Header.antt =====
-- readChunkMessageHeader on the header of a message's first chunk, and of its later ones.
use fastlive.Base.{ℕ, ◌+◌, ◌%◌, ◌^◌, ◌<◌, ◌≡◌, refl, sym, ◌∙◌, arith}
use fastlive.Base.{List, ◌++◌, length, take, drop, ok, leb, true, false}
use fastlive.Base.{take-append, drop-append, drop-drop, take-all}
use fastlive.Base.{lt→leb, if◌then◌else◌}
use fastlive.Common.{uint_as_bytes, bytes_as_uint32}
use fastlive.Common.Bytes.{length-uint_as_bytes, bytes_as_uint32-uint_as_bytes}
use fastlive.Chunk.{MessageHeader, Stream}
use fastlive.Chunk.Bytes.{message_bytes}
use fastlive.Chunk.MessageLaws.{length-message_bytes}
use fastlive.Connection.{Connection, read}
use fastlive.Connection.Receive.{
  check_fmt, parse_timestamp, parse_length_type, parse_header, read_extended_timestamp,
  read_chunk_message_header,
}
use fastlive.Connection.Receive.Read.{fed, read-append}

-- A message header whose fields fit into the encoding; its timestamp needs no extension.
pub record Fits (mh : MessageHeader) : Type 0 where
  pub short_timestamp : mh.timestamp < 0xffffff
  pub length_fits : mh.message_length < 2 ^ 24
  pub type_fits : mh.message_type_id < 2 ^ 8
  pub stream_fits : mh.message_stream_id < 2 ^ 32

-- A chunk stream between two messages, none of which had an extended timestamp.
pub record IsIdle (s : Stream) : Type 0 where
  pub nothing_read : s.has_read ≡ 0
  pub not_whole : s.is_intergral ≡ false
  pub plain_timestamp : s.is_extended_timestamp ≡ false

-- The stream `s` once it has the header `mh`.
abbrev pub headed : Stream → MessageHeader → Stream
headed s mh = record s {
  chunk = record s.chunk { header = record s.chunk.header { message_header = mh } };
  first_chunk = false;
  timestamp_delta = mh.timestamp;
}

module _ (a b c d : List ℕ) (n m k : ℕ) (ea : n ≡ length a) (eb : m ≡ length b)
    (ec : k ≡ length c) where
  pub take-first : take n (a ++ (b ++ (c ++ d))) ≡ a
  take-first = rw ea (take-append a (b ++ (c ++ d)))

  pub take-second : take m (drop n (a ++ (b ++ (c ++ d)))) ≡ b
  take-second = rw (ea, drop-append a (b ++ (c ++ d)), eb) (take-append b (c ++ d))

  drop-second : drop (n + m) (a ++ (b ++ (c ++ d))) ≡ c ++ d
  drop-second =
      sym (drop-drop n m (a ++ (b ++ (c ++ d))))
      ∙ rw (ea, drop-append a (b ++ (c ++ d)), eb) (drop-append b (c ++ d))

  pub take-third : take k (drop (n + m) (a ++ (b ++ (c ++ d)))) ≡ c
  take-third = rw (drop-second, ec) (take-append c d)

  pub drop-third : drop (n + m + k) (a ++ (b ++ (c ++ d))) ≡ d
  drop-third =
      sym (drop-drop (n + m) k (a ++ (b ++ (c ++ d)))) ∙ rw (drop-second, ec) (drop-append c d)

-- The fields behind the timestamp fit; nothing is said of the timestamp.
pub record FitsBehind (mh : MessageHeader) : Type 0 where
  pub length_behind : mh.message_length < 2 ^ 24
  pub type_behind : mh.message_type_id < 2 ^ 8
  pub stream_behind : mh.message_stream_id < 2 ^ 32

behind_stamp : (mh : MessageHeader) → Fits mh → FitsBehind mh
behind_stamp mh f = record {
  length_behind = f.length_fits;
  type_behind = f.type_fits;
  stream_behind = f.stream_fits;
}

-- The fields behind the timestamp, read from the eleven bytes.
module _ (mh : MessageHeader) (f : FitsBehind mh) where
  abbrev pub stamp : List ℕ
  stamp = uint_as_bytes (if leb 0xffffff mh.timestamp then 0xffffff else mh.timestamp) 3 true

  abbrev size : List ℕ
  size = uint_as_bytes mh.message_length 3 true

  abbrev kind : List ℕ
  kind = uint_as_bytes mh.message_type_id 1 true

  abbrev stream : List ℕ
  stream = uint_as_bytes mh.message_stream_id 4 false

  abbrev pub bytes : List ℕ
  bytes = stamp ++ (size ++ (kind ++ stream))

  size_of_stamp : 3 ≡ length stamp
  size_of_stamp = sym (length-uint_as_bytes _ 3 true)

  size_of_size : 3 ≡ length size
  size_of_size = sym (length-uint_as_bytes _ 3 true)

  size_of_kind : 1 ≡ length kind
  size_of_kind = sym (length-uint_as_bytes _ 1 true)

  size_of_stream : 4 ≡ length stream
  size_of_stream = sym (length-uint_as_bytes _ 4 false)

  -- What the three bytes of the timestamp hold.
  abbrev pub stamp_value : ℕ
  stamp_value = if leb 0xffffff mh.timestamp then 0xffffff else mh.timestamp

  pub read_stamp : bytes_as_uint32 (take 3 bytes) true ≡ stamp_value % 2 ^ 24
  read_stamp =
      rw (take-first stamp size kind stream 3 3 1 size_of_stamp size_of_size size_of_kind)
        (bytes_as_uint32-uint_as_bytes stamp_value 3 true (omega arith))

  pub read_size : bytes_as_uint32 (take 3 (drop 3 bytes)) true ≡ mh.message_length
  read_size =
      rw
        (
          take-second stamp size kind stream 3 3 1 size_of_stamp size_of_size size_of_kind,
          bytes_as_uint32-uint_as_bytes mh.message_length 3 true (omega arith),
        )
        (omega (arith, f))

  pub read_kind : bytes_as_uint32 (take 1 (drop 6 bytes)) true ≡ mh.message_type_id
  read_kind =
      rw
        (
          take-third stamp size kind stream 3 3 1 size_of_stamp size_of_size size_of_kind,
          bytes_as_uint32-uint_as_bytes mh.message_type_id 1 true (omega arith),
        )
        (omega (arith, f))

  pub read_stream : bytes_as_uint32 (take 4 (drop 7 bytes)) false ≡ mh.message_stream_id
  read_stream =
      rw
        (
          drop-third stamp size kind stream 3 3 1 size_of_stamp size_of_size size_of_kind,
          take-all 4 stream (omega (arith, size_of_stream)),
          bytes_as_uint32-uint_as_bytes mh.message_stream_id 4 false (omega arith),
        )
        (omega (arith, f))

  module _ (s : Stream) (i : IsIdle s) where
    pub check_idle : check_fmt s 0 ≡ ok tt
    unfolding check_fmt
    check_idle = ground arith

    parse_timestamp-idle :
        mh.timestamp < 0xffffff
        → parse_timestamp s 0 bytes
          ≡ record (headed s (record s.message_header { timestamp = mh.timestamp })) {
            first_chunk = s.first_chunk;
          }
    unfolding parse_timestamp
    parse_timestamp-idle short =
        let whole : mh.timestamp % 2 ^ 24 ≡ mh.timestamp = omega arith in
        rw
          (
            read_stamp,
            lt→leb 0xffffff mh.timestamp short,
            whole,
            lt→leb 0xffffff mh.timestamp short,
            i.plain_timestamp,
          )
          refl

    parse_header-idle :
        mh.timestamp < 0xffffff
        → parse_header s 0 bytes ≡ ok (record (headed s mh) { first_chunk = s.first_chunk })
    unfolding parse_header parse_length_type
    parse_header-idle short =
        rw (parse_timestamp-idle short, i.nothing_read, read_size, read_kind, read_stream) refl

-- A full header whose timestamp is below 0xffffff, and whose other fields fit the encoding, is read
-- into a stream that is between messages and has had no extended timestamp; the input behind it is
-- left.
pub read_chunk_message_header-first :
    (mh : MessageHeader) (s : Stream) (rest : List ℕ) (c : Connection)
    → Fits mh
    → IsIdle s
    → read_chunk_message_header s 0 (fed c (message_bytes mh 0 ++ rest))
      ≡ ok (headed s mh, fed c rest)
unfolding read_chunk_message_header read_extended_timestamp
read_chunk_message_header-first mh s rest c f i =
    rw
      (
        check_idle mh (behind_stamp mh f) s i,
        read-append 11 (message_bytes mh 0) rest c (sym (length-message_bytes mh 0)),
      )
      (unfold message_bytes in
        rw (parse_header-idle mh (behind_stamp mh f) s i f.short_timestamp, i.plain_timestamp) refl)

-- A chunk of format 3 has no header, and changes nothing in a stream that is under way.
pub read_chunk_message_header-next :
    (s : Stream) (c : Connection)
    → s.first_chunk ≡ false
    → s.is_extended_timestamp ≡ false
    → read_chunk_message_header s 3 c ≡ ok (s, c)
unfolding read_chunk_message_header read_extended_timestamp check_fmt parse_header read
read_chunk_message_header-next s c e x = ground arith
