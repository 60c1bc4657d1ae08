-- ===== src/Connection/Receive/Body.antt =====
-- readChunkMessageBody on the bytes of a chunk, and the stream in the middle of its message.
use fastlive.Base.{ℕ, ◌+◌, ◌-◌, ◌%◌, ◌^◌, ◌≤◌, ◌<◌, ◌≡◌, refl, sym, ap, ap₂, ◌∙◌, arith}
use fastlive.Base.{List, ◌++◌, length, take, drop, replicate, overwrite, ok, ◌==◌}
use fastlive.Base.{
  append_assoc, length-append, take-add, take-length-take, drop-replicate, overwrite-append,
}
use fastlive.Base.{length-take, length-drop, length-replicate, le→leb, ne→==}
use fastlive.Base.{Bool, true, false, if◌then◌else◌}
use fastlive.Chunk.{Stream}
use fastlive.Connection.{Connection}
use fastlive.Connection.Receive.{read_chunk_message_body, body_size, body_data}
use fastlive.Connection.Receive.Read.{fed, read-append}

-- The buffer of a message of which `n` bytes have arrived.
abbrev pub filled_to : List ℕ → ℕ → List ℕ
filled_to bytes n = take n bytes ++ replicate (length bytes - n) 0

-- The stream `s` with the first `n` bytes of its message.
abbrev pub partial : Stream → List ℕ → ℕ → Stream
partial s bytes n = record s {
  chunk = record s.chunk { chunk_data = filled_to bytes n };
  has_read = n;
  is_intergral = n == length bytes;
}

-- One more chunk of the message goes into its place.
filled_to-overwrite :
    (bytes : List ℕ) (n k : ℕ)
    → n ≤ length bytes
    → overwrite (filled_to bytes n) n (take k (drop n bytes))
      ≡ filled_to bytes (n + length (take k (drop n bytes)))
filled_to-overwrite bytes n k h =
    ap (λ m. overwrite (filled_to bytes n) m part) front
    ∙ overwrite-append (take n bytes) (replicate (length bytes - n) 0) part
    ∙ sym (append_assoc (take n bytes) part _)
    ∙ ap₂ ◌++◌
        (ap (λ l. take n bytes ++ l) (sym (take-length-take k (drop n bytes)))
          ∙ take-add n (length part) bytes)
        (drop-replicate (length part) (length bytes - n) 0 ∙ ap (λ m. replicate m 0) zeros)
  where
    part : List ℕ
    part = take k (drop n bytes)

    front : n ≡ length (take n bytes)
    front = omega (arith, length-take n bytes)

    zeros : length bytes - n - length part ≡ length bytes - (n + length part)
    zeros = omega arith

-- A stream that has `n` of the bytes of its message.
pub record Midway (t : Stream) (bytes : List ℕ) (n : ℕ) : Type 0 where
  pub read_so_far : t.has_read ≡ n
  pub unfinished : t.is_intergral ≡ false
  pub buffer : body_data t ≡ filled_to bytes n
  pub announced : t.message_length ≡ length bytes
  pub more : n < length bytes
  pub bound : length bytes < 2 ^ 32

body_size-Midway :
    {t : Stream} {bytes : List ℕ} {n : ℕ} (remote : ℕ)
    → Midway t bytes n
    → body_size t remote ≡ length (take remote (drop n bytes))
body_size-Midway {t} {bytes} {n} remote w =
    ground (arith, length-take remote (drop n bytes), length-drop n bytes, w)

length-filled_to :
    (bytes : List ℕ) (n : ℕ) → n ≤ length bytes → length (filled_to bytes n) ≡ length bytes
length-filled_to bytes n h = omega (
  arith,
  length-append (take n bytes) (replicate (length bytes - n) 0),
  length-take n bytes,
  length-replicate {A = ℕ} (length bytes - n) 0,
)

if_true-false : (b : Bool) → (if b then true else false) ≡ b
if_true-false true = refl
if_true-false false = refl

-- The next chunk's bytes are read, and nothing behind them.
pub read_chunk_message_body-next :
    (t : Stream) (bytes : List ℕ) (n : ℕ) (rest : List ℕ) (c : Connection)
    → Midway t bytes n
    → read_chunk_message_body t (fed c (take c.remote_chunk_size (drop n bytes) ++ rest))
      ≡ ok (partial t bytes (n + length (take c.remote_chunk_size (drop n bytes))), fed c rest)
unfolding read_chunk_message_body
read_chunk_message_body-next t bytes n rest c w =
    rw
      (
        body_size-Midway c.remote_chunk_size w,
        ne→== t.message_length 0 (omega (arith, w)),
        w.buffer,
        w.read_so_far,
        w.unfinished,
        hi,
        le→leb n (n + length part) (omega arith),
        le→leb (n + length part) (length (filled_to bytes n))
            (omega (arith, size, w, length-filled_to bytes n)),
        read-append (n + length part - n) part rest c (omega arith),
        filled_to-overwrite bytes n c.remote_chunk_size (omega (arith, w)),
        w.announced,
        if_true-false (n + length part == length bytes),
      )
      refl
  where
    part : List ℕ
    part = take c.remote_chunk_size (drop n bytes)

    size : length part ≤ length bytes - n
    size = omega (arith, length-take c.remote_chunk_size (drop n bytes), length-drop n bytes)

    hi : (n + length part) % 2 ^ 32 ≡ n + length part
    hi = omega (arith, size, w)
