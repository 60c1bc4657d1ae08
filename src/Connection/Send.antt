-- ===== src/Connection/Send.antt =====
-- SendIntegralMessage: a message cut into chunks of the local chunk size and queued.
pub mod Wire
pub mod Refine
pub mod Rounds
pub mod Whole
pub mod Keeps
use fastlive.Base.{ℕ, zero, suc, ◌+◌, ◌-◌, ◌*◌, ◌/◌, ◌%◌, ◌^◌, Bool, true, false, List, [], ◌∷◌}
use fastlive.Base.{ltb, leb, ◌==◌, ◌&&◌, if◌then◌else◌, length, take, drop, replicate}
use fastlive.Base.{Outcome, ok, err, panic, empty_message}
use fastlive.Chunk.{Chunk, Header, BasicHeader}
use fastlive.Chunk.Slice.{Slice, cap}
use fastlive.Chunk.Encode.{encode}
use fastlive.Connection.{Connection, M, ◌>>=◌, pure, lift, write}

-- EncodeHdrPool.Get: a buffer of the pool, or a new one of 18 bytes.
unfoldable pub get_header_buf : M Slice
get_header_buf c = elim c.encode_hdr_pool [
  | [] ↦ ok (record { arr = replicate 18 0; len = 18 }, c)
  | p ∷ ps ↦ ok (p, record c { encode_hdr_pool = ps })
]

-- `data[lo:hi]` of a slice whose capacity is its length.
unfoldable pub sub_slice : List ℕ → ℕ → ℕ → Outcome Slice
sub_slice bytes lo hi =
    if leb lo hi && leb hi (length bytes)
    then ok (record { arr = drop lo bytes; len = hi - lo })
    else panic

-- `headerBuf[:n]`
unfoldable pub shorten : Slice → ℕ → Outcome Slice
shorten p n = if leb n (cap p) then ok (record p { len = n }) else panic

-- The header of the chunk with number `idx`: that of the message, but for the format.
abbrev pub chunk_header : Chunk → ℕ → Header
chunk_header msg idx = record msg.header {
  basic_header = record msg.basic_header { fmt = if ltb 0 idx then 3 else 0 };
}

-- One round of the loop: the chunk is queued as two slices. The result is the number of bytes
-- and the size of the chunk's data.
unfoldable pub send_chunk : Chunk → ℕ → M (ℕ × ℕ)
send_chunk msg idx c =
    let lo : ℕ = idx * c.local_chunk_size in
    let hi : ℕ =
      if ltb msg.message_length (lo + c.local_chunk_size)
      then msg.message_length
      else lo + c.local_chunk_size in
    (do
      body ← lift (sub_slice msg.chunk_data lo hi)
      buf ← get_header_buf
      (size, buf) ← lift (encode (chunk_header msg idx) buf)
      head ← lift (shorten buf size)
      n ← write head
      m ← write body
      pure (n + m, (hi + 2 ^ 32 - lo) % 2 ^ 32))
      c

-- The loop of SendIntegralMessage with `rounds` rounds left. `un_write` is the code's count of
-- what is still to be sent: the message length less the size of the last chunk alone.
unfoldable pub send_loop : Chunk → ℕ → ℕ → ℕ → ℕ → M ℕ
send_loop msg zero idx un_write write_size c = ok (write_size, c)
send_loop msg (suc rounds) idx un_write write_size c = elim (un_write == 0) [
  | true ↦ ok (write_size, c)
  | false ↦
      (do
        (n, chunk_size) ← send_chunk msg idx
        send_loop msg rounds (suc idx) ((msg.message_length + 2 ^ 32 - chunk_size) % 2 ^ 32)
            (write_size + n))
        c
]

-- SendIntegralMessage: the bytes queued. Dividing by a chunk size of 0 panics.
unfoldable pub send_integral_message : Chunk → M ℕ
send_integral_message msg c =
    if msg.message_length == 0
    then err empty_message
    else if c.local_chunk_size == 0
    then panic
    else send_loop msg (suc (length msg.chunk_data / c.local_chunk_size)) 0 msg.message_length 0 c
