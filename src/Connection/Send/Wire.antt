-- ===== src/Connection/Send/Wire.antt =====
-- What a message looks like on the wire, by plain list functions.
use fastlive.Base.{ℕ, zero, suc, ◌/◌, List, [], ◌++◌, take, drop, leb, if◌then◌else◌}
use fastlive.Chunk.{Chunk}
use fastlive.Chunk.Bytes.{header_bytes}
use fastlive.Connection.Send.{chunk_header}

-- `n` chunks of `size` bytes of `bytes`, each behind the header `h`.
unfoldable pub chunks : List ℕ → ℕ → ℕ → List ℕ → List ℕ
chunks h size zero bytes = []
chunks h size (suc n) bytes = h ++ (take size bytes ++ chunks h size n (drop size bytes))

-- The message's first chunk, with its full header.
abbrev pub first_chunk_bytes : Chunk → ℕ → List ℕ
first_chunk_bytes msg size = header_bytes (chunk_header msg 0) ++ take size msg.chunk_data

-- The header of the chunks that follow.
abbrev pub next_header : Chunk → List ℕ
next_header msg = header_bytes (chunk_header msg 1)

-- The first chunk, and as many more as the size goes into the length. Where it goes into the
-- length without a rest, the last of those is a header with nothing behind it.
unfoldable pub wire : Chunk → ℕ → List ℕ
wire msg size =
    if leb msg.message_length size
    then first_chunk_bytes msg size
    else first_chunk_bytes msg size
      ++ chunks (next_header msg) size (msg.message_length / size) (drop size msg.chunk_data)
