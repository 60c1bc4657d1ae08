-- ===== src/Chunk/ShortSlice.antt =====
-- Encode on a slice that is shorter than the basic header.
use fastlive.Base.{◌-◌, ◌≤◌, ◌<◌, ◌≡◌, refl, arith, length, ltb, panic, false}
use fastlive.Base.{Bool-cases, inl, inr, ltb→lt, ltb→le, le→ltb, lt→ltb, lt→leb, le→leb}
use fastlive.Common.Bytes.{length-uint_as_bytes}
use fastlive.Chunk.{Header}
use fastlive.Chunk.Bytes.{basic_bytes}
use fastlive.Base.{overwrite, bit_or, [], ◌∷◌, length-drop}
use fastlive.Chunk.Encode.{encode, encode_basic, first_byte}
use fastlive.Chunk.Slice.{Slice, cap, put_byte, put_bytes, tail_from}

encode-small : (h : Header) (p : Slice) → 2 ≤ h.csid → h.csid < 64 → p.len < 1 → encode h p ≡ panic
unfolding encode encode_basic put_byte
encode-small h p lo hi short =
    rw (le→ltb h.csid 2 lo, lt→ltb h.csid 64 hi, le→ltb 0 p.len (omega arith)) refl

encode-medium :
    (h : Header) (p : Slice) → 64 ≤ h.csid → h.csid < 320 → p.len < 2 → encode h p ≡ panic
unfolding encode encode_basic put_byte
encode-medium h p lo hi short = elim (Bool-cases (ltb 0 p.len)) [
  | inl one ↦
      rw
        (
          le→ltb h.csid 2 (omega arith),
          le→ltb h.csid 64 lo,
          lt→ltb h.csid 320 hi,
          one,
          le→ltb 1 p.len (omega arith),
        )
        refl
  | inr nothing ↦
      rw (le→ltb h.csid 2 (omega arith), le→ltb h.csid 64 lo, lt→ltb h.csid 320 hi, nothing) refl
]

encode-large :
    (h : Header) (p : Slice)
    → 320 ≤ h.csid
    → h.csid ≤ 65599
    → 14 ≤ cap p
    → p.len < 3
    → encode h p ≡ panic
unfolding encode encode_basic put_byte put_bytes tail_from
encode-large h p lo hi space short = elim (Bool-cases (ltb 0 p.len)) [
  | inl one ↦
      rw
        (
          le→ltb h.csid 2 (omega arith),
          le→ltb h.csid 64 (omega arith),
          le→ltb h.csid 320 lo,
          le→leb h.csid 65599 hi,
          one,
          le→leb 3 (length (overwrite p.arr 0 (bit_or (first_byte h.fmt) 1 ∷ []))) roomy,
          lt→leb 3 p.len short,
        )
        refl
  | inr nothing ↦
      rw
        (
          le→ltb h.csid 2 (omega arith),
          le→ltb h.csid 64 (omega arith),
          le→ltb h.csid 320 lo,
          le→leb h.csid 65599 hi,
          nothing,
        )
        refl
]
  where
    roomy : 3 ≤ length (overwrite p.arr 0 (bit_or (first_byte h.fmt) 1 ∷ []))
    roomy = omega (arith, length-drop 1 p.arr)

-- On a slice that is shorter than the basic header Encode panics, however large the slice's memory
-- is.
pub encode-panic :
    (h : Header) (p : Slice)
    → 2 ≤ h.csid
    → h.csid ≤ 65599
    → 14 ≤ cap p
    → p.len < length (basic_bytes h.fmt h.csid)
    → encode h p ≡ panic
unfolding basic_bytes
encode-panic h p lo hi space short = elim (Bool-cases (ltb h.csid 64)) [
  | inl small ↦ encode-small h p lo (ltb→lt _ _ small) (ground (arith, small, short))
  | inr big ↦ elim (Bool-cases (ltb h.csid 320)) [
    | inl medium ↦
        encode-medium h p (ltb→le _ _ big) (ltb→lt _ _ medium) (ground (arith, big, medium, short))
    | inr large ↦
        encode-large h p (ltb→le _ _ large) hi space
          (ground (arith, big, large, short, length-uint_as_bytes (h.csid - 64) 2 false))
  ]
]
