-- ===== src/Connection/Receive/Read.antt =====
-- The parts of RecvIntegralMessage on an input that holds an encoded chunk.
use fastlive.Base.{ℕ, ◌+◌, ◌-◌, ◌*◌, ◌/◌, ◌%◌, ◌^◌, ◌≤◌, ◌<◌, ◌≡◌, refl, sym, arith}
use fastlive.Base.{List, [], ◌∷◌, ◌++◌, length, ok, ltb, Bool, true, false}
use fastlive.Base.{length-append, take-append, drop-append}
use fastlive.Base.{le→leb, ne→==, ltb→lt, ltb→le, Bool-cases, inl, inr}
use fastlive.Common.{uint_as_bytes, bytes_as_uint32, bytes_uint_big, bytes_uint_little}
use fastlive.Common.Bytes.{length-uint_as_bytes, bytes_as_uint32-uint_as_bytes}
use fastlive.Chunk.Bytes.{basic_bytes}
use fastlive.Connection.{Connection, read, read_bytes_as_uint32}
use fastlive.Connection.Receive.{read_chunk_basic_header}

-- A connection with the bytes that it will read next.
abbrev pub fed : Connection → List ℕ → Connection
fed c bytes = record c { input = bytes }

-- Reading as many bytes as `w` has takes `w` from the front of the input.
pub read-append :
    (n : ℕ) (w rest : List ℕ) (c : Connection)
    → n ≡ length w
    → read n (fed c (w ++ rest)) ≡ ok (w, fed c rest)
unfolding read
read-append n w rest c e =
    rw
      (
        e,
        le→leb (length w) (length (w ++ rest)) (omega (arith, length-append w rest)),
        take-append w rest,
        drop-append w rest,
      )
      refl

pub read_uint-append :
    (n : ℕ) (big : Bool) (w rest : List ℕ) (c : Connection)
    → n ≡ length w
    → read_bytes_as_uint32 n big (fed c (w ++ rest)) ≡ ok (bytes_as_uint32 w big, fed c rest)
unfolding read_bytes_as_uint32
read_uint-append n big w rest c e = rw (read-append n w rest c e) refl

one_byte : (b : ℕ) → b < 256 → bytes_as_uint32 (b ∷ []) true ≡ b
unfolding bytes_as_uint32 bytes_uint_big
one_byte b h = omega arith

one_byte_little : (b : ℕ) → b < 256 → bytes_as_uint32 (b ∷ []) false ≡ b
unfolding bytes_as_uint32 bytes_uint_little
one_byte_little b h = omega arith

module _ (fmt csid : ℕ) (rest : List ℕ) (c : Connection) (hf : fmt ≤ 3) where
  basic_header-small :
      2 ≤ csid
      → csid < 64
      → read_chunk_basic_header (fed c ((fmt * 64 + csid) ∷ rest)) ≡ ok ((fmt, csid), fed c rest)
  unfolding read_chunk_basic_header
  basic_header-small lo h =
      let e : (fmt * 64 + csid) % 64 ≡ csid = omega arith in
      let f : (fmt * 64 + csid) / 64 % 256 ≡ fmt = omega arith in
      rw
        (
          read_uint-append 1 true ((fmt * 64 + csid) ∷ []) rest c refl,
          one_byte (fmt * 64 + csid) (omega arith),
          e,
          ne→== csid 0 (omega arith),
          ne→== csid 1 (omega arith),
          f,
        )
        refl

  basic_header-medium :
      64 ≤ csid
      → csid < 320
      → read_chunk_basic_header (fed c ((fmt * 64) ∷ (csid - 64) ∷ rest))
        ≡ ok ((fmt, csid), fed c rest)
  unfolding read_chunk_basic_header
  basic_header-medium lo h =
      let e : fmt * 64 % 64 ≡ 0 = omega arith in
      let f : fmt * 64 / 64 % 256 ≡ fmt = omega arith in
      let g : (csid - 64 + 64) % 2 ^ 32 ≡ csid = omega arith in
      rw
        (
          read_uint-append 1 true ((fmt * 64) ∷ []) ((csid - 64) ∷ rest) c refl,
          one_byte (fmt * 64) (omega arith),
          e,
          f,
          read_uint-append 1 false ((csid - 64) ∷ []) rest c refl,
          one_byte_little (csid - 64) (omega arith),
          g,
        )
        refl

  basic_header-large :
      320 ≤ csid
      → csid ≤ 65599
      → read_chunk_basic_header
          (fed c ((fmt * 64 + 1) ∷ (uint_as_bytes (csid - 64) 2 false ++ rest)))
        ≡ ok ((fmt, csid), fed c rest)
  unfolding read_chunk_basic_header
  basic_header-large lo h =
      let e : (fmt * 64 + 1) % 64 ≡ 1 = omega arith in
      let f : (fmt * 64 + 1) / 64 % 256 ≡ fmt = omega arith in
      let g : ((csid - 64) % 2 ^ 16 + 64) % 2 ^ 32 ≡ csid = omega arith in
      rw
        (
          read_uint-append 1 true ((fmt * 64 + 1) ∷ []) (uint_as_bytes (csid - 64) 2 false ++ rest)
              c refl,
          one_byte (fmt * 64 + 1) (omega arith),
          e,
          f,
          read_uint-append 2 false (uint_as_bytes (csid - 64) 2 false) rest c
              (sym (length-uint_as_bytes (csid - 64) 2 false)),
          bytes_as_uint32-uint_as_bytes (csid - 64) 2 false (omega arith),
          g,
        )
        refl

-- The basic header that `encode` writes is read back, and nothing more is read.
pub read_chunk_basic_header-basic_bytes :
    (fmt csid : ℕ) (rest : List ℕ) (c : Connection)
    → fmt ≤ 3
    → 2 ≤ csid
    → csid ≤ 65599
    → read_chunk_basic_header (fed c (basic_bytes fmt csid ++ rest)) ≡ ok ((fmt, csid), fed c rest)
unfolding basic_bytes
read_chunk_basic_header-basic_bytes fmt csid rest c hf lo hi = elim (Bool-cases (ltb csid 64)) [
  | inl small ↦ rw small (basic_header-small fmt csid rest c hf lo (ltb→lt _ _ small))
  | inr big ↦ elim (Bool-cases (ltb csid 320)) [
    | inl small ↦
        rw (big, small) (basic_header-medium fmt csid rest c hf (ltb→le _ _ big) (ltb→lt _ _ small))
    | inr large ↦ rw (big, large) (basic_header-large fmt csid rest c hf (ltb→le _ _ large) hi)
  ]
]
