-- ===== src/Connection/Receive/Sound.antt =====
-- The invariant of a chunk stream, and that every part of RecvIntegralMessage keeps it.
use fastlive.Base.{ℕ, ◌%◌, ◌^◌, ◌≤◌, ◌<◌, ◌≡◌, refl, sym, arith, subst}
use fastlive.Base.{List, length, take, drop, ◌⊎◌, inl, inr, ◌≢◌, true}
use fastlive.Base.{ok, panic, stuck, Bool-cases, ltb, leb, ◌==◌}
use fastlive.Base.{if◌then◌else◌, not, ◌&&◌}
use fastlive.Common.{bytes_as_uint32, fmt_to_message_hdr_size}
use fastlive.Common.Bytes.{bytes_as_uint32-lt}
use fastlive.Chunk.{with_timestamp, Stream}
use fastlive.Connection.{Connection, peek, discard, pure, ◌>>=◌}
use fastlive.Connection.Receive.{
  check_fmt, parse_timestamp, parse_length_type, parse_header, read_extended_timestamp,
  read_chunk_message_header,
}
use fastlive.Connection.Steps.{
  Ensures, gives, fails, Ensures-then, Ensures-if, Ensures-if_at, Ensures-lift, Later, Later-refl,
  Later-trans, Later-of_eq, Later-drop, read-Later,
}

-- What has been read of a message is at most its length, and goes into a buffer of that length; it
-- counts as integral when all of it, and something, has been read.
pub record IsSound (s : Stream) : Type 0 where
  pub read_le : s.has_read ≤ s.message_length
  pub length_bound : s.message_length < 2 ^ 32
  pub buffer : (s.has_read ≡ 0) ⊎ (length s.chunk_data ≡ s.message_length)
  pub whole : s.is_intergral ≡ true → (s.has_read ≡ s.message_length) × (0 < s.has_read)

parse_timestamp-IsSound :
    (s : Stream) (fmt : ℕ) (hdr : List ℕ) → IsSound s → IsSound (parse_timestamp s fmt hdr)
unfolding parse_timestamp
parse_timestamp-IsSound s fmt hdr i = record {
  read_le = ground (arith, i);
  length_bound = ground (arith, i);
  buffer = ground (arith, i, i.buffer);
  whole = λ e. ground (arith, i.whole, e);
}

parse_length_type-IsSound :
    (s : Stream) (fmt : ℕ) (hdr : List ℕ) {s' : Stream}
    → parse_length_type s fmt hdr ≡ ok s'
    → IsSound s
    → IsSound s'
unfolding parse_length_type
parse_length_type-IsSound s fmt hdr e i =
    ground (arith, bytes_as_uint32-lt (take 3 (drop 3 hdr)) true)

parse_header-IsSound :
    (s : Stream) (fmt : ℕ) (hdr : List ℕ) {s' : Stream}
    → parse_header s fmt hdr ≡ ok s'
    → IsSound s
    → IsSound s'
unfolding parse_header
parse_header-IsSound s fmt hdr {s'} e i = elim (Bool-cases (leb fmt 2)) [
  | inl lo ↦ elim (Bool-cases (leb fmt 1)) [
    | inl both ↦
        parse_length_type-IsSound (parse_timestamp s fmt hdr) fmt hdr (ground (arith, lo, both, e))
          timed
    | inr only ↦
        let e' : parse_timestamp s fmt hdr ≡ s' = ground (arith, lo, only, e) in
        subst IsSound e' timed
  ]
  | inr hi ↦ ground (arith, hi, e, i, i.whole)
]
  where
    timed : IsSound (parse_timestamp s fmt hdr)
    timed = parse_timestamp-IsSound s fmt hdr i

check_fmt-total : (s : Stream) (fmt : ℕ) → (check_fmt s fmt ≢ panic) × (check_fmt s fmt ≢ stuck)
unfolding check_fmt
check_fmt-total s fmt = (λ e. ground arith, λ e. ground arith)

parse_header-total :
    (s : Stream) (fmt : ℕ) (hdr : List ℕ)
    → (parse_header s fmt hdr ≢ panic) × (parse_header s fmt hdr ≢ stuck)
unfolding parse_header parse_length_type
parse_header-total s fmt hdr = (λ e. ground arith, λ e. ground arith)

with_timestamp-IsSound : (t : ℕ) (s : Stream) → IsSound s → IsSound (with_timestamp t s)
with_timestamp-IsSound t s i = record {
  read_le = i.read_le;
  length_bound = i.length_bound;
  buffer = i.buffer;
  whole = i.whole;
}

module _ (X : Type 0) where
  extended_timestamp-keeps :
      (s : Stream) (t : ℕ) (c : Connection)
      → IsSound s
      → Ensures X
          (λ s' c'. IsSound s' × Later c c')
          ((if not s.first_chunk && ltb 0 s.timestamp && not (s.timestamp == t)
              then pure s
              else (do _ ← discard 4; pure (with_timestamp t s)))
            c)
  unfolding discard
  extended_timestamp-keeps s t c i =
      Ensures-if_at (not s.first_chunk && ltb 0 s.timestamp && not (s.timestamp == t)) (pure s)
        (do _ ← discard 4; pure (with_timestamp t s)) c (λ _. gives (i, Later-refl c))
        (λ _. gives (with_timestamp-IsSound t s i, Later-drop 4 c))

  read_extended_timestamp-keeps :
      (s : Stream) (c : Connection)
      → IsSound s
      → Ensures X (λ s' c'. IsSound s' × Later c c') (read_extended_timestamp s c)
  unfolding read_extended_timestamp peek
  read_extended_timestamp-keeps s c i =
      Ensures-if_at s.is_extended_timestamp _ (pure s) c
        (λ e.
          Ensures-then {P = λ _ c'. c' ≡ c}
            (Ensures-if (leb 4 (length c.input)) (λ _. gives refl) (λ _. fails))
            (λ buffer c' same.
              rw (sym same)
                (extended_timestamp-keeps s (bytes_as_uint32 buffer true % 2 ^ 31) c' i)))
        (λ e. gives (i, Later-refl c))

  -- A stream stays sound while a chunk's message header is read.
  pub read_chunk_message_header-keeps :
      (s : Stream) (fmt : ℕ) (c : Connection)
      → IsSound s
      → Ensures X (λ s' c'. IsSound s' × Later c c') (read_chunk_message_header s fmt c)
  unfolding read_chunk_message_header
  read_chunk_message_header-keeps s fmt c i =
      Ensures-then
        (Ensures-lift X (check_fmt s fmt) c (check_fmt-total s fmt).0 (check_fmt-total s fmt).1)
        (λ _ c₁ l₁. Ensures-then (read-Later X (fmt_to_message_hdr_size fmt) c₁) (λ hdr c₂ l₂.
          Ensures-then
            (Ensures-lift X (parse_header s fmt hdr) c₂ (parse_header-total s fmt hdr).0
              (parse_header-total s fmt hdr).1)
            (λ s₁ c₃ l₃.
              Ensures-then
                (read_extended_timestamp-keeps s₁ c₃ (parse_header-IsSound s fmt hdr l₃.0 i))
                (λ s₂ c₄ l₄. gives (
                  record {
                    read_le = l₄.0.read_le;
                    length_bound = l₄.0.length_bound;
                    buffer = l₄.0.buffer;
                    whole = l₄.0.whole;
                  },
                  Later-trans (Later-of_eq l₁.1)
                      (Later-trans l₂.0 (Later-trans (Later-of_eq l₃.1) l₄.1)),
                )))))
