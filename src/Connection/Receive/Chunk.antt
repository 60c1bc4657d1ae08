-- ===== src/Connection/Receive/Chunk.antt =====
-- One round of RecvIntegralMessage: a message's first chunk, and a later one.
use fastlive.Base.{ℕ, ◌+◌, ◌-◌, ◌^◌, ◌≤◌, ◌<◌, ◌≡◌, refl, sym, ap, ap₂, arith}
use fastlive.Base.{List, [], ◌∷◌, ◌++◌, length, take, drop, replicate, ok, ◌==◌}
use fastlive.Base.{
  ==→eq, append-nil, append_assoc, eq→==, ne→==, le→ltb, Bool-cases, inl, inr, true, false,
}
use fastlive.Base.{Option-cases, none, some}
use fastlive.Chunk.{Stream, MessageHeader, Header, fresh_stream, new_stream}
use fastlive.Chunk.Bytes.{basic_bytes, message_bytes, header_bytes}
use fastlive.Connection.{Connection, find, store}
use fastlive.Connection.Receive.{read_chunk, stream_of}
use fastlive.Connection.Receive.Read.{fed, read_chunk_basic_header-basic_bytes}
use fastlive.Connection.Receive.Header.{
  Fits, IsIdle, headed, read_chunk_message_header-first, read_chunk_message_header-next,
}
use fastlive.Connection.Receive.Body.{partial, Midway, read_chunk_message_body-next}

-- The stream that a chunk with this basic header belongs to: a known one or a new one.
abbrev pub stream_at : ℕ → ℕ → List (ℕ × Stream) → Stream
stream_at fmt csid m = elim (find csid m) [ some s ↦ s | none ↦ fresh_stream fmt csid true ]

-- The connection with the stream `s` under its key.
abbrev pub stored : ℕ → Stream → Connection → Connection
stored csid s c = record c { messages = store csid s c.messages }

of_some : (u s : Stream) → some u ≡ some s → u ≡ s
of_some u s e = cc

pub find-store : (k : ℕ) (s : Stream) (m : List (ℕ × Stream)) → find k (store k s m) ≡ some s
find-store k s [] = rw (eq→== k k refl) refl
find-store k s ((j, t) ∷ m) = elim (Bool-cases (j == k)) [
  | inl here ↦ rw (here, eq→== k k refl) refl
  | inr there ↦ rw (there, there) (find-store k s m)
]

pub store-store :
    (k : ℕ) (s t : Stream) (m : List (ℕ × Stream)) → store k s (store k t m) ≡ store k s m
store-store k s t [] = rw (eq→== k k refl) refl
store-store k s t ((j, u) ∷ m) = elim (Bool-cases (j == k)) [
  | inl here ↦ rw (here, eq→== k k refl) refl
  | inr there ↦ rw (there, there) (ap (λ l. (j, u) ∷ l) (store-store k s t m))
]

pub store-find : (k : ℕ) (s : Stream) (m : List (ℕ × Stream)) → find k m ≡ some s → store k s m ≡ m
store-find k s [] e = cc
store-find k s ((j, u) ∷ m) e = elim (Bool-cases (j == k)) [
  | inl here ↦ rw here (
      ap₂ (λ (a : ℕ) (b : Stream). (a, b) ∷ m) (sym (==→eq j k here))
        (sym (of_some u s (rw here at e))))
  | inr there ↦ rw there (ap (λ l. (j, u) ∷ l) (store-find k s m (rw there at e)))
]

-- Looking a stream up makes it known, whether it was or not.
pub stream_of-stream_at :
    (fmt csid : ℕ) (c : Connection)
    → fmt ≤ 3
    → 2 ≤ csid
    → csid ≤ 65559
    → stream_of fmt csid c
      ≡ ok (stream_at fmt csid c.messages, stored csid (stream_at fmt csid c.messages) c)
unfolding stream_of new_stream
stream_of-stream_at fmt csid c hf lo hi = elim (Option-cases (find csid c.messages)) [
  | inl new ↦
      rw (new, stream_of, stream_at, le→ltb 3 fmt hf, le→ltb csid 2 lo, le→ltb 65559 csid hi) refl
  | inr (s, known) ↦ rw (known, stream_of, stream_at, store-find csid s c.messages known) refl
]

-- The stream's state before and after the first chunk of the message `bytes` with header `h`.
abbrev pub begun : Header → Connection → Stream
begun h c = headed (stream_at 0 h.csid c.messages) h.message_header

-- What a round that reads a chunk of `part` bytes after `n` others returns.
abbrev pub Reads : Connection → List ℕ → ℕ → Stream → List ℕ → ℕ → List ℕ → Type 0
Reads c input csid s bytes n rest =
    read_chunk (fed c input)
    ≡ ok ((csid, partial s bytes n), fed (stored csid (partial s bytes n) c) rest)

begun-Midway :
    (s : Stream) (mh : MessageHeader) (bytes : List ℕ)
    → IsIdle s
    → Fits mh
    → length bytes ≡ mh.message_length
    → 0 < length bytes
    → Midway (headed s mh) bytes 0
begun-Midway s mh bytes i f e pos = record {
  read_so_far = i.nothing_read;
  unfinished = i.not_whole;
  buffer =
      rw i.nothing_read
        (let e' : mh.message_length ≡ length bytes - 0 = omega arith in ap (λ n. replicate n 0) e');
  announced = sym e;
  more = pos;
  bound = omega (arith, f);
}

-- The first chunk of a message, on an idle stream.
pub read_chunk-first :
    (h : Header) (bytes rest : List ℕ) (c : Connection)
    → h.fmt ≡ 0
    → 2 ≤ h.csid
    → h.csid ≤ 65559
    → Fits h.message_header
    → IsIdle (stream_at 0 h.csid c.messages)
    → length bytes ≡ h.message_length
    → 0 < length bytes
    → Reads c
        (header_bytes h ++ (take c.remote_chunk_size bytes ++ rest))
        h.csid
        (begun h c)
        bytes
        (length (take c.remote_chunk_size bytes))
        rest
unfolding read_chunk header_bytes
read_chunk-first h bytes rest c hf lo hi f i e pos =
    rw
      (
        hf,
        append_assoc (basic_bytes 0 h.csid) (message_bytes h.message_header 0)
            (take c.remote_chunk_size bytes ++ rest),
        read_chunk_basic_header-basic_bytes 0 h.csid
            (message_bytes h.message_header 0 ++ (take c.remote_chunk_size bytes ++ rest)) c
            (omega arith) lo (omega arith),
        stream_of-stream_at 0 h.csid
            (fed c (message_bytes h.message_header 0 ++ (take c.remote_chunk_size bytes ++ rest)))
            (omega arith) lo hi,
        read_chunk_message_header-first h.message_header (stream_at 0 h.csid c.messages)
            (take c.remote_chunk_size bytes ++ rest)
            (stored h.csid (stream_at 0 h.csid c.messages) c) f i,
        read_chunk_message_body-next (begun h c) bytes 0 rest
            (stored h.csid (stream_at 0 h.csid c.messages) c)
            (begun-Midway (stream_at 0 h.csid c.messages) h.message_header bytes i f e pos),
        store-store h.csid,
        no_more,
      )
      refl
  where
    no_more : 0 + length (take c.remote_chunk_size bytes) ≡ length (take c.remote_chunk_size bytes)
    no_more = omega arith

-- A stream with some, but not all, bytes of its message, and what it keeps of the header.
pub record UnderWay (s : Stream) (bytes : List ℕ) : Type 0 where
  pub not_first : s.first_chunk ≡ false
  pub plain : s.is_extended_timestamp ≡ false
  pub same_length : s.message_length ≡ length bytes
  pub length_bound : length bytes < 2 ^ 32

partial-Midway :
    (s : Stream) (bytes : List ℕ) (n : ℕ)
    → UnderWay s bytes
    → 0 < n
    → n < length bytes
    → Midway (partial s bytes n) bytes n
partial-Midway s bytes n u pos more = record {
  read_so_far = refl;
  unfinished = ne→== n (length bytes) (omega arith);
  buffer = rw (ne→== n 0 (omega arith)) refl;
  announced = u.same_length;
  more = more;
  bound = u.length_bound;
}

stream_at-known :
    (fmt csid : ℕ) (m : List (ℕ × Stream)) {s : Stream}
    → find csid m ≡ some s
    → stream_at fmt csid m ≡ s
stream_at-known fmt csid m e = rw (e, stream_at) refl

-- A later chunk of a message, which has a header of format 3.
pub read_chunk-next :
    (h : Header) (s : Stream) (bytes rest : List ℕ) (n : ℕ) (c : Connection)
    → h.fmt ≡ 3
    → 2 ≤ h.csid
    → h.csid ≤ 65559
    → UnderWay s bytes
    → find h.csid c.messages ≡ some (partial s bytes n)
    → 0 < n
    → n < length bytes
    → Reads c
        (header_bytes h ++ (take c.remote_chunk_size (drop n bytes) ++ rest))
        h.csid
        s
        bytes
        (n + length (take c.remote_chunk_size (drop n bytes)))
        rest
unfolding read_chunk header_bytes message_bytes
read_chunk-next h s bytes rest n c hf lo hi u known pos more =
    rw
      (
        hf,
        append-nil (basic_bytes 3 h.csid),
        read_chunk_basic_header-basic_bytes 3 h.csid
            (take c.remote_chunk_size (drop n bytes) ++ rest) c (omega arith) lo (omega arith),
        stream_of-stream_at 3 h.csid (fed c (take c.remote_chunk_size (drop n bytes) ++ rest))
            (omega arith) lo hi,
        stream_at-known 3 h.csid c.messages known,
        read_chunk_message_header-next (partial s bytes n)
            (stored h.csid (partial s bytes n)
              (fed c (take c.remote_chunk_size (drop n bytes) ++ rest)))
            u.not_first u.plain,
        read_chunk_message_body-next (partial s bytes n) bytes n rest
            (stored h.csid (partial s bytes n) c) (partial-Midway s bytes n u pos more),
        store-store h.csid,
      )
      refl
