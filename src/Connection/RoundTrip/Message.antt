-- ===== src/Connection/RoundTrip/Message.antt =====
-- RecvIntegralMessage on the wire form of a message of one chunk, and of several.
use fastlive.Base.{ℕ, zero, suc, ◌-◌, ◌*◌, ◌/◌, ◌≤◌, ◌<◌, ◌≡◌, refl, sym, ◌∙◌, arith}
use fastlive.Base.{List, ◌++◌, length, take, drop, ok}
use fastlive.Base.{take-all, append-nil, append_assoc, length-append, length-take}
use fastlive.Base.{ne→==, eq→==}
use fastlive.Chunk.{Chunk, Header, MessageHeader, Stream}
use fastlive.Chunk.Bytes.{header_bytes}
use fastlive.Chunk.EncodeLaws.{length-header_bytes}
use fastlive.Connection.{Connection}
use fastlive.Connection.Send.{chunk_header}
use fastlive.Connection.Send.Wire.{chunks, next_header, first_chunk_bytes}
use fastlive.Connection.Receive.{receive_loop, recv_integral_message}
use fastlive.Connection.Receive.Read.{fed}
use fastlive.Connection.Receive.Header.{headed}
use fastlive.Connection.Receive.Body.{partial}
use fastlive.Connection.Receive.Chunk.{
  stream_at, stored, find-store, store-store, begun, Reads, UnderWay, read_chunk-first,
}
use fastlive.Connection.RoundTrip.{left_over, received, IsReceivable, arrived}
use fastlive.Connection.RoundTrip.Loop.{receive_loop-done, receive_loop-more, receive_loop-chunks}

partial-whole :
    (s : Stream) (mh : MessageHeader) (bytes : List ℕ)
    → partial (headed s mh) bytes (length bytes) ≡ received s mh bytes
partial-whole s mh bytes =
    rw
      (
        eq→== (length bytes) (length bytes) refl,
        take-all (length bytes) bytes (omega arith),
        none_left,
        append-nil bytes,
      )
      refl
  where
    none_left : length bytes - length bytes ≡ 0
    none_left = omega arith

length-chunks :
    (h : Header) (size n : ℕ) (bytes : List ℕ) → n ≤ length (chunks (header_bytes h) size n bytes)
unfolding chunks
length-chunks h size zero bytes = omega arith
length-chunks h size (suc n) bytes = omega (
  arith,
  length-append (header_bytes h)
      (take size bytes ++ chunks (header_bytes h) size n (drop size bytes)),
  length-append (take size bytes) (chunks (header_bytes h) size n (drop size bytes)),
  length-header_bytes h,
  length-chunks h size n (drop size bytes),
)

module _ (msg : Chunk) (c : Connection) (rest : List ℕ) (v : IsReceivable msg c) where
  abbrev first_read : ℕ
  first_read = length (take c.remote_chunk_size msg.chunk_data)

  read_first :
      (more : List ℕ)
      → Reads c
          (first_chunk_bytes msg c.remote_chunk_size ++ more)
          msg.csid
          (begun (chunk_header msg 0) c)
          msg.chunk_data
          first_read
          more
  read_first more =
      rw
        (append_assoc (header_bytes (chunk_header msg 0)) (take c.remote_chunk_size msg.chunk_data)
          more)
        (read_chunk-first (chunk_header msg 0) msg.chunk_data more c refl v.csid_lo v.csid_hi v.fits
          v.idle v.whole (omega (arith, v)))

  -- The result of RecvIntegralMessage.
  abbrev pub Receives : List ℕ → List ℕ → Type 0
  Receives input left =
      recv_integral_message (fed c input)
      ≡ ok ((msg.csid, arrived msg c), fed (stored msg.csid (arrived msg c) c) left)

  pub receive-short :
      msg.message_length ≤ c.remote_chunk_size
      → Receives (first_chunk_bytes msg c.remote_chunk_size ++ rest) rest
  unfolding recv_integral_message
  receive-short short =
      let e : first_read ≡ length msg.chunk_data =
        omega (arith, length-take c.remote_chunk_size msg.chunk_data, v) in
      receive_loop-done _ _ (read_first rest) (eq→== first_read (length msg.chunk_data) e)
      ∙ rw (e, partial-whole (stream_at 0 msg.csid c.messages) msg.message_header msg.chunk_data)
          refl

  abbrev started : Stream
  started = begun (chunk_header msg 0) c

  abbrev pub later : List ℕ
  later =
      chunks (next_header msg) c.remote_chunk_size (msg.message_length / c.remote_chunk_size)
        (drop c.remote_chunk_size msg.chunk_data)

  started-UnderWay : UnderWay started msg.chunk_data
  started-UnderWay = record {
    not_first = refl;
    plain = v.idle.plain_timestamp;
    same_length = sym v.whole;
    length_bound = omega (arith, v);
  }

  receive-later :
      (fuel : ℕ)
      → c.remote_chunk_size < msg.message_length
      → msg.message_length / c.remote_chunk_size ≤ fuel
      → receive_loop fuel (
          fed
            (stored msg.csid (partial started msg.chunk_data c.remote_chunk_size) c)
            (later ++ rest))
        ≡ ok (
          (msg.csid, arrived msg c),
          fed
              (stored msg.csid (arrived msg c) c)
              (left_over (next_header msg) msg.message_length c.remote_chunk_size ++ rest),
        )
  receive-later fuel long room =
      rw one at (
        receive_loop-chunks (chunk_header msg 1) started msg.chunk_data rest started-UnderWay refl
          v.csid_lo v.csid_hi (msg.message_length / c.remote_chunk_size) 1 fuel
          (stored msg.csid (partial started msg.chunk_data (1 * c.remote_chunk_size)) c)
          v.chunk_size (omega arith) (omega (arith, v)) (rw v.whole refl) room
          (find-store msg.csid (partial started msg.chunk_data (1 * c.remote_chunk_size))
            c.messages))
      ∙ rw
          (
            store-store msg.csid,
            partial-whole (stream_at 0 msg.csid c.messages) msg.message_header msg.chunk_data,
            v.whole,
          )
          refl
    where
      one : 1 * c.remote_chunk_size ≡ c.remote_chunk_size
      one = omega arith

  pub receive-long :
      c.remote_chunk_size < msg.message_length
      → Receives
          ((first_chunk_bytes msg c.remote_chunk_size ++ later) ++ rest)
          (left_over (next_header msg) msg.message_length c.remote_chunk_size ++ rest)
  unfolding recv_integral_message
  receive-long long = rw (append_assoc (first_chunk_bytes msg c.remote_chunk_size) later rest) (
      receive_loop-more _ _ (read_first (later ++ rest))
        (ne→== first_read (length msg.chunk_data) (omega (arith, e, v)))
      ∙ rw e (
          receive-later _ long (
            omega (
              arith,
              length-append (first_chunk_bytes msg c.remote_chunk_size) (later ++ rest),
              length-append later rest,
              length-chunks (chunk_header msg 1) c.remote_chunk_size
                  (msg.message_length / c.remote_chunk_size)
                  (drop c.remote_chunk_size msg.chunk_data),
            ))))
    where
      e : first_read ≡ c.remote_chunk_size
      e = omega (arith, length-take c.remote_chunk_size msg.chunk_data, v)
