-- ===== src/Tests/Chunks.antt =====
-- A header whose chunk stream id takes three bytes, and integers as bytes.
use fastlive.Base.{true, ok, ◌≡◌, arith, length, replicate, ◌%◌, ◌^◌, ◌*◌}
use fastlive.Common.{uint_as_bytes, bytes_as_uint32, uint_bytes_little}
use fastlive.Common.Bytes.{bytes_as_uint32-uint_as_bytes}
use fastlive.Chunk.{Header}
use fastlive.Chunk.Bytes.{header_bytes, basic_bytes}
use fastlive.Chunk.Encode.{encode}
use fastlive.Chunk.EncodeLaws.{encode_lem}
use fastlive.Chunk.ShortSlice.{encode-panic}
use fastlive.Base.{panic}
use fastlive.Chunk.Slice.{Slice, cap, front}

abbrev far : Header
far = record {
  basic_header = record { fmt = 1; csid = 65599 };
  message_header = record {
    timestamp = 70000;
    message_length = 300;
    message_type_id = 8;
    message_stream_id = 1;
  };
  extended_timestamp = 0;
}

abbrev dirty : Slice
dirty = record { arr = replicate 18 255; len = 18 }

encode_lem_example :
    (q : Slice) × (encode far dirty ≡ ok (length (header_bytes far), q))
    × (front q (length (header_bytes far)) ≡ header_bytes far)
    × (cap q ≡ cap dirty)
    × (q.len ≡ dirty.len)
unfolding basic_bytes uint_as_bytes uint_bytes_little
encode_lem_example =
    encode_lem far dirty (omega arith) (omega arith) (omega arith) (omega arith) (omega arith)

bytes_as_uint32-uint_as_bytes_example :
    bytes_as_uint32 (uint_as_bytes 0x1020304 3 true) true ≡ 0x1020304 % 2 ^ (8 * 3)
bytes_as_uint32-uint_as_bytes_example = bytes_as_uint32-uint_as_bytes 0x1020304 3 true (omega arith)

-- A slice that held the header of a chunk of format 3.
abbrev used : Slice
used = record dirty { len = 1 }

encode-panic_example : encode far used ≡ panic
unfolding basic_bytes uint_as_bytes uint_bytes_little
encode-panic_example = encode-panic far used (omega arith) (omega arith) (omega arith) (omega arith)
