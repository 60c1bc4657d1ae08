-- ===== src/Chunk/BasicLaws.antt =====
-- encodeBasicHeader writes the bytes of a basic header at the front of a slice that is long enough.
use fastlive.Base.{ℕ, ◌+◌, ◌-◌, ◌*◌, ◌/◌, ◌%◌, ◌≤◌, ◌<◌, ◌≡◌, refl, ap, ◌∙◌, arith}
use fastlive.Base.{List, [], ◌∷◌, ◌++◌, length, drop, overwrite, ok, bit_or, false}
use fastlive.Base.{length-append, length-drop, drop-drop, append_assoc}
use fastlive.Base.{zero, suc, bit_or-high_low, ap₂}
use fastlive.Base.{
  overwrite-append, ltb, lt→ltb, le→ltb, le→leb, ltb→lt, ltb→le, inl, inr, Bool-cases,
}
use fastlive.Common.{uint_as_bytes, fmt_to_message_hdr_size}
use fastlive.Common.Bytes.{length-uint_as_bytes}
use fastlive.Chunk.{BasicHeader}
use fastlive.Chunk.Slice.{Slice, cap, put_byte, put_bytes}
use fastlive.Chunk.Encode.{encode_basic, first_byte}
use fastlive.Chunk.Bytes.{basic_bytes}

pub fmt_to_message_hdr_size-le : (fmt : ℕ) → fmt_to_message_hdr_size fmt ≤ 11
fmt_to_message_hdr_size-le zero = omega arith
fmt_to_message_hdr_size-le (suc zero) = omega arith
fmt_to_message_hdr_size-le (suc (suc zero)) = omega arith
fmt_to_message_hdr_size-le (suc (suc (suc n))) = omega arith

-- The slice `p` with the bytes `w` written at its front.
abbrev pub filled : Slice → List ℕ → Slice
filled p w = record p { arr = w ++ drop (length w) p.arr }

pub overwrite-filled :
    (p : Slice) (w bs : List ℕ)
    → overwrite (w ++ drop (length w) p.arr) (length w) bs
      ≡ (w ++ bs) ++ drop (length (w ++ bs)) p.arr
overwrite-filled p w bs =
    overwrite-append w (drop (length w) p.arr) bs
    ∙ rw (drop-drop (length w) (length bs) p.arr, length-append w bs, append_assoc w bs) refl

pub cap-filled : (p : Slice) (w : List ℕ) → length w ≤ cap p → cap (filled p w) ≡ cap p
cap-filled p w h =
    omega (arith, length-append w (drop (length w) p.arr), length-drop (length w) p.arr)

pub put_byte-filled :
    (p : Slice) (w : List ℕ) (i b : ℕ)
    → i ≡ length w
    → i < p.len
    → put_byte (filled p w) i b ≡ ok (filled p (w ++ b ∷ []))
unfolding put_byte
put_byte-filled p w i b e h = rw (lt→ltb i p.len h, e, overwrite-filled p w (b ∷ [])) refl

pub put_bytes-filled :
    (p : Slice) (w bs : List ℕ) (lo hi : ℕ)
    → lo ≡ length w
    → hi ≡ lo + length bs
    → hi ≤ cap p
    → put_bytes (filled p w) lo hi bs ≡ ok (filled p (w ++ bs))
unfolding put_bytes
put_bytes-filled p w bs lo hi e f h =
    rw
      (
        le→leb lo hi (omega arith),
        le→leb hi (cap (filled p w)) (omega (arith, cap-filled p w)),
        e,
        overwrite-filled p w bs,
      )
      refl

-- The two bits of the format above six bits of `c`.
pub first_byte-bit_or : (fmt c : ℕ) → fmt ≤ 3 → c < 64 → bit_or (first_byte fmt) c ≡ fmt * 64 + c
first_byte-bit_or fmt c hf hc =
    let high : first_byte fmt ≡ (fmt * 64 + c) / 64 * 64 = omega arith in
    let low : c ≡ (fmt * 64 + c) % 64 = omega arith in
    ap₂ bit_or high low ∙ bit_or-high_low (fmt * 64 + c) (omega arith)

pub length-basic_bytes :
    (fmt csid : ℕ) → (1 ≤ length (basic_bytes fmt csid)) × (length (basic_bytes fmt csid) ≤ 3)
unfolding basic_bytes
length-basic_bytes fmt csid = ground (arith, length-uint_as_bytes (csid - 64) 2 false)

module _ (bh : BasicHeader) (p : Slice) (hf : bh.fmt ≤ 3) (lo : 2 ≤ bh.csid) where
  encode_basic-small :
      bh.csid < 64 → 1 ≤ p.len → encode_basic bh p ≡ ok (1, filled p ((bh.fmt * 64 + bh.csid) ∷ []))
  unfolding encode_basic
  encode_basic-small h room =
      rw (le→ltb bh.csid 2 lo, lt→ltb bh.csid 64 h, put_byte-filled p [] 0 _ refl room)
        (ap (λ b. ok (1, filled p (b ∷ [])))
          (ap (bit_or (first_byte bh.fmt)) unchanged ∙ first_byte-bit_or bh.fmt bh.csid hf h))
    where
      unchanged : bh.csid % 256 ≡ bh.csid
      unchanged = omega arith

  encode_basic-medium :
      64 ≤ bh.csid
      → bh.csid < 320
      → 2 ≤ p.len
      → encode_basic bh p ≡ ok (2, filled p ((bh.fmt * 64) ∷ (bh.csid - 64) ∷ []))
  unfolding encode_basic
  encode_basic-medium h k room =
      rw
        (
          le→ltb bh.csid 2 lo,
          le→ltb bh.csid 64 h,
          lt→ltb bh.csid 320 k,
          put_byte-filled p [] 0 (bit_or (first_byte bh.fmt) 0) refl (omega arith),
          put_byte-filled p (bit_or (first_byte bh.fmt) 0 ∷ []) 1 ((bh.csid - 64) % 256) refl room,
        )
        (ap₂ (λ b c. ok (2, filled p (b ∷ c ∷ []))) first unchanged)
    where
      first : bit_or (first_byte bh.fmt) 0 ≡ bh.fmt * 64
      first = omega (arith, first_byte-bit_or bh.fmt 0 hf (omega arith))

      unchanged : (bh.csid - 64) % 256 ≡ bh.csid - 64
      unchanged = omega arith

  encode_basic-large :
      320 ≤ bh.csid
      → bh.csid ≤ 65599
      → 3 ≤ p.len
      → 3 ≤ cap p
      → encode_basic bh p
        ≡ ok (3, filled p ((bh.fmt * 64 + 1) ∷ uint_as_bytes (bh.csid - 64) 2 false))
  unfolding encode_basic
  encode_basic-large h k room space =
      rw
        (
          le→ltb bh.csid 2 lo,
          le→ltb bh.csid 64 (omega arith),
          le→ltb bh.csid 320 h,
          le→leb bh.csid 65599 k,
          put_byte-filled p [] 0 (bit_or (first_byte bh.fmt) 1) refl (omega arith),
          put_bytes-filled p (bit_or (first_byte bh.fmt) 1 ∷ [])
              (uint_as_bytes (bh.csid - 64) 2 false) 1 3 refl
              (omega (arith, length-uint_as_bytes (bh.csid - 64) 2 false)) space,
        )
        (ap (λ b. ok (3, filled p (b ∷ uint_as_bytes (bh.csid - 64) 2 false)))
          (first_byte-bit_or bh.fmt 1 hf (omega arith)))

  pub encode_basic_lem :
      bh.csid ≤ 65599
      → length (basic_bytes bh.fmt bh.csid) ≤ p.len
      → 3 ≤ cap p
      → encode_basic bh p
        ≡ ok (length (basic_bytes bh.fmt bh.csid), filled p (basic_bytes bh.fmt bh.csid))
  unfolding basic_bytes
  encode_basic_lem hi room space = elim (Bool-cases (ltb bh.csid 64)) [
    | inl small ↦ rw small (encode_basic-small (ltb→lt _ _ small) (rw small at room))
    | inr big ↦ elim (Bool-cases (ltb bh.csid 320)) [
      | inl small ↦
          rw (big, small)
            (encode_basic-medium (ltb→le _ _ big) (ltb→lt _ _ small) (rw (big, small) at room))
      | inr large ↦
          rw (big, large, length-uint_as_bytes (bh.csid - 64) 2 false)
            (encode_basic-large (ltb→le _ _ large) hi
              (rw (big, large, length-uint_as_bytes (bh.csid - 64) 2 false) at room) space)
    ]
  ]
