-- ===== src/Server/Conn/Replies.antt =====
-- The responses of server_conn.go on the wire.
use fastlive.Base.{
  ℕ, ◌+◌, ◌-◌, ◌≤◌, ◌<◌, ◌≡◌, refl, sym, ap, ◌∙◌, arith, List, [], ◌∷◌, ◌++◌, length, All, ok, map,
}
use fastlive.Base.{append-nil, append_assoc, length-append, le→leb, ne→==, eq→==}
use fastlive.Chunk.{Chunk}
use fastlive.Chunk.Slice.{Slice}
use fastlive.Connection.{Connection, M, contents, flush, evens}
use fastlive.Connection.Send.Wire.{wire}
use fastlive.Connection.Send.Refine.{Ready, IsSendable, basic_size-le, queue, Queued}
use fastlive.Connection.Send.Whole.{send_integral_message-wire_with}
use fastlive.Connection.RoundTrip.Delivery.{length-wire}
use fastlive.Server.Conn.{ServerConn, on_connection, send_messages, flush_all, respond, not_nil}

-- The wire forms of messages, one after the other.
abbrev pub wires : ℕ → List Chunk → List ℕ
wires size [] = []
wires size (msg ∷ msgs) = wire msg size ++ wires size msgs

-- A message with a body that can be sent in chunks of `size` bytes.
abbrev pub Sendable : ℕ → Chunk → Type 0
Sendable size msg = IsSendable msg size × (0 < msg.message_length)

send_messages-wires :
    (msgs : List Chunk) (total : ℕ) (c : Connection)
    → All (Sendable c.local_chunk_size) msgs
    → All (Ready 3) c.encode_hdr_pool
    → (buf : List Slice) × (pool : List Slice) × (send_messages (map ok msgs) total c
        ≡ ok (total + length (wires c.local_chunk_size msgs), queue c buf pool))
      × Queued 3 c (wires c.local_chunk_size msgs) buf pool
unfolding send_messages not_nil
send_messages-wires [] total c s r = (
  c.write_buf,
  c.encode_hdr_pool,
  ap (λ n. ok (n, c)) (omega arith),
  record { queued = sym (append-nil _); rest = r },
)
send_messages-wires (msg ∷ msgs) total c s r =
    let (buf, pool, run, q) =
      send_integral_message-wire_with 3 msg c (basic_size-le msg) (omega arith) s.0.0 s.0.1 r in
    let (buf', pool', run', q') =
      send_messages-wires msgs (total + length (wire msg c.local_chunk_size)) (queue c buf pool) s.1
        q.rest in
    (
      buf',
      pool',
      rw run (
          run'
          ∙ ap (λ n. ok (n, queue c buf' pool'))
              (omega (
                arith,
                length-append (wire msg c.local_chunk_size) (wires c.local_chunk_size msgs),
              ))),
      record {
        queued = q'.queued ∙ rw (q.queued, append_assoc (contents c.write_buf)) refl;
        rest = q'.rest;
      },
    )

-- A step of the connection, from the side of its owner.
pub on_connection-ok :
    {A : Type 0} (m : M A) (sc : ServerConn) {a : A} {c : Connection}
    → m sc.connection ≡ ok (a, c)
    → on_connection m sc ≡ ok (a, record sc { connection = c })
on_connection-ok m sc e = rw (on_connection, e) refl

-- The connection after `bytes` have gone to the socket and the pool has changed.
abbrev pub handed : Connection → List ℕ → List Slice → Connection
handed c bytes pool = record c {
  room = c.room - length bytes;
  sent = c.sent ++ bytes;
  write_buf = [];
  encode_hdr_pool = pool;
}

flush_all-queue :
    (c : Connection) (bytes : List ℕ) (buf pool : List Slice)
    → contents buf ≡ bytes
    → 0 < length bytes
    → length bytes ≤ c.room
    → flush_all (length bytes) (queue c buf pool) ≡ ok (tt, handed c bytes (evens buf ++ pool))
unfolding flush_all flush
flush_all-queue c bytes [] pool e h room = absurd (omega (arith, h, ap length e))
flush_all-queue c bytes (p ∷ ps) pool e h room =
    rw
      (
        flush_all,
        flush,
        e,
        ne→== (length (p ∷ ps)) 0 (omega arith),
        le→leb (length bytes) c.room room,
        eq→== (length bytes) (length bytes) refl,
      )
      refl

wires-not_empty :
    (size : ℕ) (msg : Chunk) (msgs : List Chunk)
    → 0 < length (wire msg size)
    → 0 < length (wires size (msg ∷ msgs))
wires-not_empty size msg msgs h = omega (arith, h, length-append (wire msg size) (wires size msgs))

-- A response of messages that can all be sent, on a connection that has nothing queued and room in
-- its socket, hands the socket their wire forms; its check of the count does not fail.
pub respond-wires :
    (msg : Chunk) (msgs : List Chunk) (c : Connection)
    → All (Sendable c.local_chunk_size) (msg ∷ msgs)
    → All (Ready 3) c.encode_hdr_pool
    → c.write_buf ≡ []
    → length (wires c.local_chunk_size (msg ∷ msgs)) ≤ c.room
    → (pool : List Slice) × (respond (map ok (msg ∷ msgs)) c
        ≡ ok (tt, handed c (wires c.local_chunk_size (msg ∷ msgs)) pool))
unfolding respond
respond-wires msg msgs c s r empty room =
    let (buf, pool, run, q) = send_messages-wires (msg ∷ msgs) 0 c s r in
    (
      evens buf ++ pool,
      rw (respond, run, none_before)
          (flush_all-queue c (wires c.local_chunk_size (msg ∷ msgs)) buf pool
            (q.queued ∙ rw empty refl)
            (wires-not_empty c.local_chunk_size msg msgs (length-wire msg c.local_chunk_size))
            room),
    )
  where
    none_before :
        0 + length (wires c.local_chunk_size (msg ∷ msgs))
        ≡ length (wires c.local_chunk_size (msg ∷ msgs))
    none_before = omega arith
