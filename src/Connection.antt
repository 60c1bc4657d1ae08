-- ===== src/Connection.antt =====
-- pkg/rtmp/connection/connection.go: the state of one connection and its elementary operations.
-- The peer's bytes are the list `input`, after which it has closed; the socket takes `room` more
-- bytes and then fails. The server's pool of header buffers is a list of buffers in each connection:
-- as nothing is assumed of their order, taking the first stands for any choice that sync.Pool makes;
-- what other connections take and put back meanwhile is not modelled.
pub mod Steps
pub mod Receive
pub mod Send
pub mod RoundTrip
pub mod Handlers
use fastlive.Base.{ℕ, ◌+◌, ◌-◌, ◌*◌, ◌/◌, ◌%◌, ◌^◌, Bool, true, false, List, [], ◌∷◌, ◌++◌}
use fastlive.Base.{ltb, leb, ◌==◌, if◌then◌else◌, length, take, drop, replicate, Option, none, some}
use fastlive.Base.{Outcome, ok, err, panic, stuck, not, eof, unexpected_eof, write_failed}
use fastlive.Base.{no_connection, no_pool}
use fastlive.Common.{bytes_as_uint32}
use fastlive.Chunk.{Stream}
use fastlive.Chunk.Slice.{Slice, front}

pub record Connection : Type 0 where
  pub input : List ℕ
  pub room : ℕ
  pub sent : List ℕ
  pub remote_chunk_size : ℕ
  pub local_chunk_size : ℕ
  -- OutAckSize.WindowSize
  pub window_size : ℕ
  pub write_buf : List Slice
  pub transaction_id : ℕ
  pub messages : List (ℕ × Stream)
  pub encode_hdr_pool : List Slice

-- A step on a connection. After an error or a panic the connection is only closed.
abbrev pub M : Type 0 → Type 0
M A = Connection → Outcome (A × Connection)

abbrev pub then_with :
    {A B : Type 0} → Outcome (A × Connection) → (A → M B) → Outcome (B × Connection)
then_with (ok (a, c)) f = f a c
then_with (err e) f = err e
then_with panic f = panic
then_with stuck f = stuck

infixl 5 ◌>>=◌
abbrev pub ◌>>=◌ : {A B : Type 0} → M A → (A → M B) → M B
◌>>=◌ m f c = then_with (m c) f

abbrev pub pure : {A : Type 0} → A → M A
pure a c = ok (a, c)

abbrev pub lift : {A : Type 0} → Outcome A → M A
lift (ok a) c = ok (a, c)
lift (err e) c = err e
lift panic c = panic
lift stuck c = stuck

-- `map[uint32]*chunk.Stream`
abbrev pub find : ℕ → List (ℕ × Stream) → Option Stream
find k [] = none
find k ((j, s) ∷ m) = if j == k then some s else find k m

abbrev pub store : ℕ → Stream → List (ℕ × Stream) → List (ℕ × Stream)
store k s [] = (k, s) ∷ []
store k s ((j, t) ∷ m) = if j == k then (k, s) ∷ m else (j, t) ∷ store k s m

-- Connection.Init, told which of the socket and the three pools are given.
unfoldable pub init : Bool → Bool → Bool → Bool → Connection → Outcome Connection
init rwc decode_hdr_pool encode_hdr_pool new_chunk_pool c =
    if not rwc
    then err no_connection
    else if not decode_hdr_pool
    then err no_pool
    else if not encode_hdr_pool
    then err no_pool
    else if not new_chunk_pool
    then err no_pool
    else ok (record c {
      remote_chunk_size = if ltb c.remote_chunk_size 128 then 128 else c.remote_chunk_size;
      local_chunk_size = if leb c.local_chunk_size 128 then 4096 else c.local_chunk_size;
      window_size = if c.window_size == 0 then 2500000 else c.window_size;
      write_buf = [];
      messages = [];
    })

-- Connection.Read into a buffer of `n` bytes: io.ReadAtLeast, which wants all of them. (At the
-- end of the input the code closes the socket as well.)
unfoldable pub read : ℕ → M (List ℕ)
read n c =
    if leb n (length c.input)
    then ok (take n c.input, record c { input = drop n c.input })
    else if length c.input == 0
    then err eof
    else err unexpected_eof

-- Connection.Peek and Connection.Discard.
unfoldable pub peek : ℕ → M (List ℕ)
peek n c = if leb n (length c.input) then ok (take n c.input, c) else err eof

unfoldable pub discard : ℕ → M (Unit {0})
discard n c = ok (tt, record c { input = drop n c.input })

-- common.ReadBytesAsUint32 from the connection.
unfoldable pub read_bytes_as_uint32 : ℕ → Bool → M ℕ
read_bytes_as_uint32 n big_endian = do buffer ← read n; pure (bytes_as_uint32 buffer big_endian)

-- Connection.Write only queues the slice.
unfoldable pub write : Slice → M ℕ
write p c = ok (p.len, record c { write_buf = c.write_buf ++ (p ∷ []) })

-- The contents of queued slices, one after the other.
abbrev pub contents : List Slice → List ℕ
contents [] = []
contents (p ∷ ps) = front p p.len ++ contents ps

-- The slices at even places of writeBuf, which are header buffers.
abbrev pub evens : List Slice → List Slice
evens [] = []
evens (p ∷ []) = p ∷ []
evens (p ∷ q ∷ ps) = p ∷ evens ps

-- Connection.Flush: net.Buffers.WriteTo, then the header buffers go back into the pool (deferred
-- calls, so that the first is on top).
unfoldable pub flush : M ℕ
flush c =
    if length c.write_buf == 0
    then ok (0, c)
    else if leb (length (contents c.write_buf)) c.room
    then ok (
      length (contents c.write_buf),
      record c {
        room = c.room - length (contents c.write_buf);
        sent = c.sent ++ contents c.write_buf;
        write_buf = [];
        encode_hdr_pool = evens c.write_buf ++ c.encode_hdr_pool;
      },
    )
    else err write_failed
