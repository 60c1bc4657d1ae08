-- ===== src/Connection/Receive/Refused.antt =====
-- The chunk stream ids that encodeBasicHeader takes and NewStream does not.
use fastlive.Base.{ℕ, ◌≤◌, ◌<◌, ◌≡◌, refl, arith, List, ◌++◌, panic, none}
use fastlive.Base.{lt→ltb, le→ltb}
use fastlive.Chunk.{new_stream}
use fastlive.Chunk.Bytes.{basic_bytes}
use fastlive.Connection.{Connection, find}
use fastlive.Connection.Receive.{read_chunk, stream_of}
use fastlive.Connection.Receive.Read.{fed, read_chunk_basic_header-basic_bytes}

-- A chunk that begins with the basic header of a new chunk stream above 65559 makes the receiver
-- panic.
pub read_chunk-panic :
    (fmt csid : ℕ) (rest : List ℕ) (c : Connection)
    → fmt ≤ 3
    → 65559 < csid
    → csid ≤ 65599
    → find csid c.messages ≡ none
    → read_chunk (fed c (basic_bytes fmt csid ++ rest)) ≡ panic
unfolding read_chunk stream_of new_stream
read_chunk-panic fmt csid rest c hf lo hi new =
    rw
      (
        read_chunk_basic_header-basic_bytes fmt csid rest c hf (omega arith) hi,
        stream_of,
        new,
        new_stream,
        le→ltb 3 fmt hf,
        le→ltb csid 2 (omega arith),
        lt→ltb 65559 csid lo,
      )
      refl
