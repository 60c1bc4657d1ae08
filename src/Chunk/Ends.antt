-- ===== src/Chunk/Ends.antt =====
-- The encoders always end.
use fastlive.Base.{ℕ, ltb, leb, ◌==◌, ◌&&◌, Ends, Finishes-then, Finishes-if, returns, errs, breaks}
use fastlive.Chunk.{BasicHeader, MessageHeader, Header}
use fastlive.Chunk.Slice.{Slice, put_byte, put_bytes, tail_from, cap}
use fastlive.Chunk.Encode.{
  encode, encode_basic, encode_message, encode_length_type, encode_stream_id,
}
use fastlive.Base.{List}

put_byte-Ends : (p : Slice) (i b : ℕ) → Ends (put_byte p i b)
unfolding put_byte
put_byte-Ends p i b = Finishes-if (ltb i p.len) (λ _. returns tt) (λ _. breaks)

put_bytes-Ends : (p : Slice) (lo hi : ℕ) (bs : List ℕ) → Ends (put_bytes p lo hi bs)
unfolding put_bytes
put_bytes-Ends p lo hi bs =
    Finishes-if (leb lo hi && leb hi (cap p)) (λ _. returns tt) (λ _. breaks)

encode_basic-Ends : (bh : BasicHeader) (p : Slice) → Ends (encode_basic bh p)
unfolding encode_basic
encode_basic-Ends bh p =
    Finishes-if (ltb bh.csid 2) (λ _. errs)
      (λ _.
        Finishes-if (ltb bh.csid 64) (λ _. Finishes-then (put_byte-Ends p 0 _) (λ _ _. returns tt))
          (λ _.
            Finishes-if (ltb bh.csid 320)
              (λ _.
                Finishes-then (put_byte-Ends p 0 _)
                  (λ q _. Finishes-then (put_byte-Ends q 1 _) (λ _ _. returns tt)))
              (λ _.
                Finishes-if (leb bh.csid 65599)
                  (λ _.
                    Finishes-then (put_byte-Ends p 0 _)
                      (λ q _. Finishes-then (put_bytes-Ends q 1 3 _) (λ _ _. returns tt)))
                  (λ _. errs))))

encode_stream_id-Ends :
    (mh : MessageHeader) (fmt : ℕ) (p : Slice) → Ends (encode_stream_id mh fmt p)
unfolding encode_stream_id
encode_stream_id-Ends mh fmt p =
    Finishes-if (fmt == 0) (λ _. put_bytes-Ends p 7 11 _) (λ _. returns tt)

encode_length_type-Ends :
    (mh : MessageHeader) (fmt : ℕ) (p : Slice) → Ends (encode_length_type mh fmt p)
unfolding encode_length_type
encode_length_type-Ends mh fmt p =
    Finishes-if (leb fmt 1)
      (λ _.
        Finishes-then (put_bytes-Ends p 3 6 _)
          (λ q _. Finishes-then (put_bytes-Ends q 6 7 _) (λ r _. encode_stream_id-Ends mh fmt r)))
      (λ _. returns tt)

encode_message-Ends : (mh : MessageHeader) (fmt : ℕ) (p : Slice) → Ends (encode_message mh fmt p)
unfolding encode_message
encode_message-Ends mh fmt p =
    Finishes-if (ltb 3 fmt) (λ _. errs)
      (λ _.
        Finishes-if (fmt == 3) (λ _. returns tt)
          (λ _.
            Finishes-then (put_bytes-Ends p 0 3 _)
              (λ q _. Finishes-then (encode_length_type-Ends mh fmt q) (λ _ _. returns tt))))

tail_from-Ends : (p : Slice) (lo : ℕ) → Ends (tail_from p lo)
unfolding tail_from
tail_from-Ends p lo = Finishes-if (leb lo p.len) (λ _. returns tt) (λ _. breaks)

pub encode-Ends : (h : Header) (p : Slice) → Ends (encode h p)
unfolding encode
encode-Ends h p = Finishes-then (encode_basic-Ends h.basic_header p) (λ (n, q) _.
    Finishes-then (tail_from-Ends q n)
      (λ t _. Finishes-then (encode_message-Ends h.message_header h.fmt t) (λ _ _. returns tt)))
