-- ===== src/Chunk/Encode.antt =====
-- The encoders of basic_header.go, message_header.go and header.go. They write into a slice that
-- the caller lends them; the number is the size written.
use fastlive.Base.{ℕ, ◌+◌, ◌-◌, ◌*◌, ◌%◌, ◌^◌, bit_or, true, false, ltb, leb, ◌==◌}
use fastlive.Base.{if◌then◌else◌, Outcome, ok, err, ◌>>=◌, bad_fmt, bad_csid}
use fastlive.Common.{uint_as_bytes, fmt_to_message_hdr_size}
use fastlive.Chunk.{BasicHeader, MessageHeader, Header}
use fastlive.Chunk.Slice.{Slice, put_byte, put_bytes, tail_from, with_tail}

-- `bh.Fmt << 6` on uint8
abbrev pub first_byte : ℕ → ℕ
first_byte fmt = fmt * 2 ^ 6 % 2 ^ 8

-- basicHeader.encode
unfoldable pub encode_basic : BasicHeader → Slice → Outcome (ℕ × Slice)
encode_basic bh p =
    let b1 : ℕ = first_byte bh.fmt in
    let csid : ℕ = bh.csid in
    if ltb csid 2
    then err bad_csid
    else if ltb csid 64
    then (do q ← put_byte p 0 (bit_or b1 (csid % 2 ^ 8)); ok (1, q))
    else if ltb csid 320
    then (do q ← put_byte p 0 (bit_or b1 0); r ← put_byte q 1 ((csid - 64) % 2 ^ 8); ok (2, r))
    else if leb csid 65599
    then (do
      q ← put_byte p 0 (bit_or b1 1)
      r ← put_bytes q 1 3 (uint_as_bytes (csid - 64) 2 false)
      ok (3, r))
    else err bad_csid

-- The innermost part of messageHeader.encode, `if fmt == 0`.
unfoldable pub encode_stream_id : MessageHeader → ℕ → Slice → Outcome Slice
encode_stream_id mh fmt p =
    if fmt == 0 then put_bytes p 7 11 (uint_as_bytes mh.message_stream_id 4 false) else ok p

-- Its part `if fmt <= 1`.
unfoldable pub encode_length_type : MessageHeader → ℕ → Slice → Outcome Slice
encode_length_type mh fmt p =
    if leb fmt 1
    then (do
      q ← put_bytes p 3 6 (uint_as_bytes mh.message_length 3 true)
      r ← put_bytes q 6 7 (uint_as_bytes mh.message_type_id 1 true)
      encode_stream_id mh fmt r)
    else ok p

-- messageHeader.encode
unfoldable pub encode_message : MessageHeader → ℕ → Slice → Outcome (ℕ × Slice)
encode_message mh fmt p = if ltb 3 fmt then err bad_fmt else if fmt == 3 then ok (0, p) else (do
  q ←
      put_bytes p 0 3
        (uint_as_bytes (if leb 0xffffff mh.timestamp then 0xffffff else mh.timestamp) 3 true)
  r ← encode_length_type mh fmt q
  ok (fmt_to_message_hdr_size fmt, r))

-- header.Encode: the message header goes into the tail of `p` behind the basic header.
unfoldable pub encode : Header → Slice → Outcome (ℕ × Slice)
encode h p = do
  (basic_size, q) ← encode_basic h.basic_header p
  t ← tail_from q basic_size
  (message_size, r) ← encode_message h.message_header h.fmt t
  ok (basic_size + message_size, with_tail q basic_size r)
