-- ===== src/Server/Conn/Listening.antt =====
-- A client of this code that handles one control message.
use fastlive.Base.{
  ℕ, ◌^◌, ◌≤◌, ◌<◌, ◌≡◌, ◌≢◌, refl, sym, ap, ◌∙◌, subst, arith, List, [], ◌∷◌, ◌++◌, length, ok,
  inl, inr, Bool-cases, ◌==◌, le→leb, take-all, ==→eq, ◌>>=◌, ne→==,
}
use fastlive.Chunk.{Chunk, Stream, reset}
use fastlive.Chunk.Bytes.{header_bytes}
use fastlive.Chunk.Message.{new_chunk}
use fastlive.Connection.{Connection, find, store}
use fastlive.Connection.Handlers.{response_acknowledgement_message}
use fastlive.Connection.Receive.Read.{fed}
use fastlive.Connection.Receive.Header.{IsIdle}
use fastlive.Connection.Receive.Chunk.{stream_at, stored, find-store}
use fastlive.Connection.RoundTrip.{IsReceivable, arrived, behind}
use fastlive.Connection.RoundTrip.Delivery.{recv_integral_message-wire}
use fastlive.Connection.Send.{chunk_header}
use fastlive.Connection.Send.Wire.{wire}
use fastlive.Server.Amf.{Amf}
use fastlive.Server.Broker.{Broker}
use fastlive.Server.Player.{done}
use fastlive.Server.Conn.{ServerConn}
use fastlive.Server.Conn.Dispatch.{
  handle_message, put_reset, reset_handled, with_connection, on_recv_integral_message,
}
use fastlive.Server.Conn.Cycle.{serve_message}

-- A message that fits one chunk looks the same at any chunk size.
wire-one :
    (msg : Chunk) (size : ℕ)
    → length msg.chunk_data ≡ msg.message_length
    → msg.message_length ≤ size
    → wire msg size ≡ header_bytes (chunk_header msg 0) ++ msg.chunk_data
unfolding wire
wire-one msg size e h =
    rw (wire, le→leb msg.message_length size h)
      (ap (λ l. header_bytes (chunk_header msg 0) ++ l)
        (take-all size msg.chunk_data (omega (arith, e, h))))

behind-one : (msg : Chunk) (size : ℕ) → msg.message_length ≤ size → behind msg size ≡ []
unfolding behind
behind-one msg size h = rw (behind, le→leb msg.message_length size h) refl

stream_at-store : (k : ℕ) (s : Stream) (m : List (ℕ × Stream)) → stream_at 0 k (store k s m) ≡ s
stream_at-store k s m = rw (stream_at, find-store k s m) refl

find-store-other :
    (k j : ℕ) (s : Stream) (m : List (ℕ × Stream)) → k ≢ j → find k (store j s m) ≡ find k m
find-store-other k j s [] h = rw (ne→== j k (λ e. h (sym e))) refl
find-store-other k j s ((i, t) ∷ m) h = elim (Bool-cases (i == j)) [
  | inl here ↦
      let at : i ≡ j = ==→eq i j here in
      rw (here, ne→== j k (λ e. h (sym e)), ne→== i k (λ e. h (sym e ∙ at))) refl
  | inr there ↦ elim (Bool-cases (i == k)) [
    | inl found ↦ rw (there, found) refl
    | inr missed ↦ rw (there, missed) (find-store-other k j s m h)
  ]
]

stream_at-other :
    (k j : ℕ) (s : Stream) (m : List (ℕ × Stream))
    → k ≢ j
    → stream_at 0 k (store j s m) ≡ stream_at 0 k m
stream_at-other k j s m h = rw (stream_at, find-store-other k j s m h) refl

-- Once a message has been handled its chunk stream is idle.
arrived-IsIdle :
    (msg : Chunk) (c : Connection) → IsReceivable msg c → IsIdle (reset (arrived msg c))
unfolding reset
arrived-IsIdle msg c v = record {
  nothing_read = refl;
  not_whole = refl;
  plain_timestamp = v.idle.plain_timestamp;
}

-- The connection that has received `msg` and reset its stream.
abbrev pub after : Connection → Chunk → List ℕ → Connection
after c msg rest = put_reset msg.csid (arrived msg c) (fed (stored msg.csid (arrived msg c) c) rest)

-- A message of one chunk, from its bytes to the end of its handling.
pub serve_one :
    (amf : Amf) (b : Broker) (cl cl' : ServerConn) (msg : Chunk) (size : ℕ) (rest : List ℕ)
    → IsReceivable msg cl.connection
    → msg.message_length ≤ cl.connection.remote_chunk_size
    → msg.message_length ≤ size
    → handle_message amf
        (arrived msg cl.connection)
        (with_connection cl (fed (stored msg.csid (arrived msg cl.connection) cl.connection) rest))
        b
      ≡ ok (done (arrived msg cl.connection, cl', b))
    → serve_message amf (with_connection cl (fed cl.connection (wire msg size ++ rest))) b
      ≡ ok (
          done (
            with_connection cl' (put_reset msg.csid (arrived msg cl.connection) cl'.connection),
            b,
          ))
unfolding serve_message on_recv_integral_message response_acknowledgement_message
serve_one amf b cl cl' msg size rest v fits fits' run =
    rw
      (
        serve_message,
        same_wire,
        recv_integral_message-wire msg cl.connection rest v,
        behind-one msg cl.connection.remote_chunk_size fits,
      )
      (ap (λ o. o >>= (λ r. ok (reset_handled msg.csid r))) run)
  where
    same_wire : wire msg size ≡ wire msg cl.connection.remote_chunk_size
    same_wire =
        wire-one msg size v.whole fits'
        ∙ sym (wire-one msg cl.connection.remote_chunk_size v.whole fits)

-- A client between messages on the control stream and on the stream `csid`, whose peer's chunks
-- hold a control message.
pub record IsListening (csid : ℕ) (c : Connection) : Type 0 where
  pub control : IsIdle (stream_at 0 2 c.messages)
  pub command : IsIdle (stream_at 0 csid c.messages)
  pub holds : 5 ≤ c.remote_chunk_size

-- A control message of the server.
abbrev pub control_chunk : ℕ → List ℕ → Chunk
control_chunk type_id bytes = new_chunk 2 (length bytes) type_id 0 bytes

pub control_chunk-IsReceivable :
    (csid type_id : ℕ) (bytes : List ℕ) (c : Connection)
    → IsListening csid c
    → type_id < 2 ^ 8
    → 0 < length bytes
    → length bytes < 2 ^ 24
    → IsReceivable (control_chunk type_id bytes) c
control_chunk-IsReceivable csid type_id bytes c l t pos fits = record {
  fits = record {
    short_timestamp = omega arith;
    length_fits = fits;
    type_fits = t;
    stream_fits = omega arith;
  };
  csid_lo = omega arith;
  csid_hi = omega arith;
  whole = refl;
  not_empty = pos;
  chunk_size = omega (arith, l.holds);
  idle = l.control;
}

pub after-IsListening :
    (csid : ℕ) (c : Connection) (msg : Chunk) (rest : List ℕ)
    → IsListening csid c
    → IsReceivable msg c
    → msg.csid ≡ 2
    → 2 ≢ csid
    → IsListening csid (after c msg rest)
after-IsListening csid c msg rest l v at apart = record {
  control =
      subst (λ k. IsIdle (stream_at 0 k (after c msg rest).messages)) at
        (subst IsIdle (sym (stream_at-store msg.csid (reset (arrived msg c)) _))
          (arrived-IsIdle msg c v));
  command = subst IsIdle (sym elsewhere) l.command;
  holds = l.holds;
}
  where
    elsewhere : stream_at 0 csid (after c msg rest).messages ≡ stream_at 0 csid c.messages
    elsewhere =
        stream_at-other csid msg.csid (reset (arrived msg c)) _ (λ e. apart (sym (e ∙ at)))
        ∙ stream_at-other csid msg.csid (arrived msg c) c.messages (λ e. apart (sym (e ∙ at)))
