-- ===== src/Chunk/EncodeLaws.antt =====
-- Encode writes the bytes of `Chunk.Bytes`, without a panic, into a slice that is long enough.
use fastlive.Base.{ℕ, ◌-◌, ◌≤◌, ◌≡◌, refl, arith}
use fastlive.Base.{List, ◌++◌, length, drop, ok}
use fastlive.Base.{length-append, length-drop, drop-drop, take-append, drop-append, append_assoc}
use fastlive.Base.{le→leb}
use fastlive.Chunk.{Header}
use fastlive.Chunk.Slice.{Slice, cap, tail_from, with_tail, front}
use fastlive.Chunk.Encode.{encode}
use fastlive.Chunk.Bytes.{basic_bytes, message_bytes, header_bytes}
use fastlive.Chunk.BasicLaws.{
  fmt_to_message_hdr_size-le, filled, cap-filled, length-basic_bytes, encode_basic_lem,
}
use fastlive.Chunk.MessageLaws.{length-message_bytes, encode_message_lem}

-- The header goes into the tail behind what is there.
tail_from-filled :
    (p : Slice) (w : List ℕ)
    → length w ≤ p.len
    → tail_from (filled p w) (length w)
      ≡ ok (record { arr = drop (length w) p.arr; len = p.len - length w })
unfolding tail_from
tail_from-filled p w h = rw (le→leb (length w) p.len h, drop-append w (drop (length w) p.arr)) refl

with_tail-filled :
    (p : Slice) (w v : List ℕ)
    → with_tail
        (filled p w)
        (length w)
        (filled (record { arr = drop (length w) p.arr; len = p.len - length w }) v)
      ≡ filled p (w ++ v)
with_tail-filled p w v =
    rw
      (
        take-append w (drop (length w) p.arr),
        drop-drop (length w) (length v) p.arr,
        length-append w v,
        append_assoc w v,
      )
      refl

encode-filled :
    (h : Header) (p : Slice)
    → h.fmt ≤ 3
    → 2 ≤ h.csid
    → h.csid ≤ 65599
    → length (basic_bytes h.fmt h.csid) ≤ p.len
    → 14 ≤ cap p
    → encode h p ≡ ok (length (header_bytes h), filled p (header_bytes h))
unfolding encode header_bytes
encode-filled h p hf lo hi room space =
    rw
      (
        encode_basic_lem h.basic_header p hf lo hi room (omega arith),
        tail_from-filled p (basic_bytes h.fmt h.csid) room,
        encode_message_lem h.message_header
            (record {
              arr = drop (length (basic_bytes h.fmt h.csid)) p.arr;
              len = p.len - length (basic_bytes h.fmt h.csid);
            })
            (omega (
              arith,
              length-drop (length (basic_bytes h.fmt h.csid)) p.arr,
              length-basic_bytes h.fmt h.csid,
            ))
            h.fmt hf,
        with_tail-filled p (basic_bytes h.fmt h.csid) (message_bytes h.message_header h.fmt),
        length-append (basic_bytes h.fmt h.csid) (message_bytes h.message_header h.fmt),
        length-message_bytes h.message_header h.fmt,
      )
      refl

pub length-header_bytes :
    (h : Header) → (1 ≤ length (header_bytes h)) × (length (header_bytes h) ≤ 14)
unfolding header_bytes
length-header_bytes h = ground (
  arith,
  length-append (basic_bytes h.fmt h.csid) (message_bytes h.message_header h.fmt),
  length-basic_bytes h.fmt h.csid,
  length-message_bytes h.message_header h.fmt,
  fmt_to_message_hdr_size-le h.fmt,
)

-- On a slice that is long enough the encoder returns the header's size and leaves the header's
-- bytes at the front of the slice; the length and the capacity stay.
pub encode_lem :
    (h : Header) (p : Slice)
    → h.fmt ≤ 3
    → 2 ≤ h.csid
    → h.csid ≤ 65599
    → length (basic_bytes h.fmt h.csid) ≤ p.len
    → 14 ≤ cap p
    → (q : Slice) × (encode h p ≡ ok (length (header_bytes h), q))
      × (front q (length (header_bytes h)) ≡ header_bytes h)
      × (cap q ≡ cap p)
      × (q.len ≡ p.len)
encode_lem h p hf lo hi room space = (
  filled p (header_bytes h),
  encode-filled h p hf lo hi room space,
  take-append (header_bytes h) (drop (length (header_bytes h)) p.arr),
  cap-filled p (header_bytes h) (omega (arith, length-header_bytes h)),
  refl,
)
