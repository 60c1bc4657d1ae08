-- ===== src/Chunk/MessageLaws.antt =====
-- encodeMessageHeader writes the bytes of a message header at the front of a slice.
use fastlive.Base.{ℕ, ◌≤◌, ◌≡◌, refl, sym, arith}
use fastlive.Base.{List, [], ◌++◌, length, ok, true, false}
use fastlive.Base.{length-append, append_assoc}
use fastlive.Base.{zero, suc, append-nil}
use fastlive.Base.{leb, le→leb, if◌then◌else◌}
use fastlive.Common.{uint_as_bytes, fmt_to_message_hdr_size}
use fastlive.Common.Bytes.{length-uint_as_bytes}
use fastlive.Chunk.{MessageHeader}
use fastlive.Chunk.Slice.{Slice, cap, put_bytes}
use fastlive.Chunk.Encode.{encode_message, encode_length_type, encode_stream_id}
use fastlive.Chunk.Bytes.{message_bytes}
use fastlive.Chunk.BasicLaws.{filled, put_bytes-filled}

-- The parts of a message header: the timestamp, the length, the type id and the stream id.
abbrev pub stamp_bytes : MessageHeader → List ℕ
stamp_bytes mh = uint_as_bytes (if leb 0xffffff mh.timestamp then 0xffffff else mh.timestamp) 3 true

abbrev pub length_bytes : MessageHeader → List ℕ
length_bytes mh = uint_as_bytes mh.message_length 3 true

abbrev pub type_bytes : MessageHeader → List ℕ
type_bytes mh = uint_as_bytes mh.message_type_id 1 true

abbrev pub stream_bytes : MessageHeader → List ℕ
stream_bytes mh = uint_as_bytes mh.message_stream_id 4 false

-- The first three, seven or all eleven bytes of the full message header, or none.
pub length-message_bytes :
    (mh : MessageHeader) (fmt : ℕ) → length (message_bytes mh fmt) ≡ fmt_to_message_hdr_size fmt
unfolding message_bytes
length-message_bytes mh zero =
    rw (length-append, length-append, length-append) (omega (arith, length-uint_as_bytes))
length-message_bytes mh (suc zero) =
    rw (length-append, length-append, append-nil) (omega (arith, length-uint_as_bytes))
length-message_bytes mh (suc (suc zero)) = rw append-nil (length-uint_as_bytes _ 3 true)
length-message_bytes mh (suc (suc (suc n))) = rw (le→leb 3 (suc (suc (suc n))) (omega arith)) refl

module _ (mh : MessageHeader) (p : Slice) (space : 11 ≤ cap p) where
  put_stamp : put_bytes p 0 3 (stamp_bytes mh) ≡ ok (filled p (stamp_bytes mh))
  put_stamp =
      put_bytes-filled p [] (stamp_bytes mh) 0 3 refl (omega (arith, length-uint_as_bytes))
        (omega arith)

  put_length :
      (w : List ℕ)
      → length w ≡ 3
      → put_bytes (filled p w) 3 6 (length_bytes mh) ≡ ok (filled p (w ++ length_bytes mh))
  put_length w e =
      put_bytes-filled p w (length_bytes mh) 3 6 (sym e) (omega (arith, length-uint_as_bytes))
        (omega arith)

  put_type :
      (w : List ℕ)
      → length w ≡ 6
      → put_bytes (filled p w) 6 7 (type_bytes mh) ≡ ok (filled p (w ++ type_bytes mh))
  put_type w e =
      put_bytes-filled p w (type_bytes mh) 6 7 (sym e) (omega (arith, length-uint_as_bytes))
        (omega arith)

  put_stream :
      (w : List ℕ)
      → length w ≡ 7
      → put_bytes (filled p w) 7 11 (stream_bytes mh) ≡ ok (filled p (w ++ stream_bytes mh))
  put_stream w e =
      put_bytes-filled p w (stream_bytes mh) 7 11 (sym e) (omega (arith, length-uint_as_bytes))
        (omega arith)

  pub length-stamp : length (stamp_bytes mh) ≡ 3
  length-stamp = length-uint_as_bytes _ 3 true

  pub length-stamp-length : length (stamp_bytes mh ++ length_bytes mh) ≡ 6
  length-stamp-length =
      omega (arith, length-append (stamp_bytes mh) (length_bytes mh), length-uint_as_bytes)

  pub length-stamp-length-type : length ((stamp_bytes mh ++ length_bytes mh) ++ type_bytes mh) ≡ 7
  length-stamp-length-type = omega (
    arith,
    length-append (stamp_bytes mh ++ length_bytes mh) (type_bytes mh),
    length-stamp-length,
    length-uint_as_bytes,
  )

  pub encode_message_lem :
      (fmt : ℕ)
      → fmt ≤ 3
      → encode_message mh fmt p ≡ ok (fmt_to_message_hdr_size fmt, filled p (message_bytes mh fmt))
  unfolding encode_message encode_length_type encode_stream_id message_bytes
  encode_message_lem zero h =
      rw
        (
          put_stamp,
          put_length (stamp_bytes mh) length-stamp,
          put_type (stamp_bytes mh ++ length_bytes mh) length-stamp-length,
          put_stream ((stamp_bytes mh ++ length_bytes mh) ++ type_bytes mh)
              length-stamp-length-type,
          append_assoc (stamp_bytes mh ++ length_bytes mh) (type_bytes mh),
          append_assoc (stamp_bytes mh) (length_bytes mh),
        )
        refl
  encode_message_lem (suc zero) h =
      rw
        (
          put_stamp,
          put_length (stamp_bytes mh) length-stamp,
          put_type (stamp_bytes mh ++ length_bytes mh) length-stamp-length,
          append_assoc (stamp_bytes mh) (length_bytes mh),
          append-nil (type_bytes mh),
        )
        refl
  encode_message_lem (suc (suc zero)) h = rw (put_stamp, append-nil (stamp_bytes mh)) refl
  encode_message_lem (suc (suc (suc zero))) h = refl
  encode_message_lem (suc (suc (suc (suc n)))) h = absurd (omega arith)
