-- ===== src/Server/Conn/Streams.antt =====
-- The publish and play commands.
use fastlive.Base.{
  ℕ, ◌^◌, ◌≤◌, ◌<◌, ◌≡◌, ◌≢◌, refl, ap, arith, List, [], ◌∷◌, length, All, ok, map, ◌>>=◌,
}
use fastlive.Base.{true, Key, codes}
use fastlive.Common.{uint_as_bytes, uint_bytes_big}
use fastlive.Chunk.{Chunk, Stream, msg_user_control_message}
use fastlive.Chunk.Message.{new_chunk, new_user_control_message, new_command_message}
use fastlive.Chunk.Slice.{Slice}
use fastlive.Connection.{Connection}
use fastlive.Server.Amf.{Amf, number, null, text}
use fastlive.Server.Conn.{
  ServerConn, status_values, play_messages, resp_play_command_message, resp_publish_command_message,
}
use fastlive.Server.Conn.Commands.{
  handle_play_command_message, handle_publish_command_message, read_names, name_stream,
  with_client_type,
}
use fastlive.Server.Conn.Replies.{wires, Sendable, handed, respond-wires, on_connection-ok}
use fastlive.Server.Conn.Connect.{
  CanAnswer, command_chunk, command_chunk-Sendable, control_chunk-Sendable, is_empty-false,
}

-- The events that a play command is answered with.
abbrev pub play_events : List (Key × Key)
play_events =
    (codes "NetStream.Play.Reset", codes "Playing and resetting stream.")
    ∷ (codes "NetStream.Play.Start", codes "Started playing stream.")
    ∷ (codes "NetStream.Data.Start", codes "Started playing stream.")
    ∷ (codes "NetStream.Play.PublishNotify", codes "Started playing notify.")
    ∷ []

-- The event of a publish command's answer.
abbrev pub publish_event : Key × Key
publish_event = (codes "NetStream.Publish.Start", codes "Start publising.")

-- The AMF library encodes an event as the bytes that `enc` names.
abbrev pub IsEncoded : Amf → (Key × Key → List ℕ) → Key × Key → Type 0
IsEncoded amf enc e =
    (amf.encode (status_values e.0 e.1) ≡ ok (enc e))
    × (0 < length (enc e))
    × (length (enc e) < 2 ^ 32)

abbrev pub event_chunk : Stream → (Key × Key → List ℕ) → Key × Key → Chunk
event_chunk msg enc e = command_chunk msg (enc e)

-- A user control message for the stream with the id 1.
abbrev pub stream_event : ℕ → Chunk
stream_event event_type =
    new_chunk 2 6 msg_user_control_message 1 (0 ∷ event_type ∷ uint_as_bytes 1 4 true)

abbrev pub event_chunks : Stream → (Key × Key → List ℕ) → List Chunk
event_chunks msg enc = map (event_chunk msg enc) play_events

-- The stream is recorded, the stream begins, and the four events.
abbrev pub play_chunks : Stream → (Key × Key → List ℕ) → List Chunk
play_chunks msg enc = stream_event 4 ∷ stream_event 0 ∷ event_chunks msg enc

event_chunks-Sendable :
    (amf : Amf) (enc : Key × Key → List ℕ) (msg : Stream) (c : Connection) (es : List (Key × Key))
    → CanAnswer msg c
    → All (IsEncoded amf enc) es
    → All (Sendable c.local_chunk_size) (map (event_chunk msg enc) es)
event_chunks-Sendable amf enc msg c [] a h = tt
event_chunks-Sendable amf enc msg c (e ∷ es) a h = (
  command_chunk-Sendable c.local_chunk_size msg (enc e) a.chunk_size a.csid_lo a.csid_hi h.0.1
      h.0.2,
  event_chunks-Sendable amf enc msg c es a h.1,
)

stream_event-Sendable : (size event_type : ℕ) → 0 < size → Sendable size (stream_event event_type)
unfolding uint_as_bytes uint_bytes_big
stream_event-Sendable size event_type pos =
    control_chunk-Sendable size 6 msg_user_control_message 1 _ pos refl (omega arith) (omega arith)

play_messages-chunks :
    (amf : Amf) (enc : Key × Key → List ℕ) (msg : Stream)
    → All (IsEncoded amf enc) play_events
    → play_messages amf msg ≡ map ok (play_chunks msg enc)
unfolding new_user_control_message new_command_message uint_as_bytes uint_bytes_big
play_messages-chunks amf enc msg h = rw (h.0.0, h.1.0.0, h.1.1.0.0, h.1.1.1.0.0) refl

resp_play_command_message-wires :
    (amf : Amf) (enc : Key × Key → List ℕ) (msg : Stream) (c : Connection)
    → CanAnswer msg c
    → All (IsEncoded amf enc) play_events
    → length (wires c.local_chunk_size (play_chunks msg enc)) ≤ c.room
    → (pool : List Slice) × (resp_play_command_message amf msg c
        ≡ ok (tt, handed c (wires c.local_chunk_size (play_chunks msg enc)) pool))
unfolding resp_play_command_message
resp_play_command_message-wires amf enc msg c a h room =
    let (pool, run) =
      respond-wires (stream_event 4) (stream_event 0 ∷ event_chunks msg enc) c
        (
          stream_event-Sendable c.local_chunk_size 4 a.chunk_size,
          (
            stream_event-Sendable c.local_chunk_size 0 a.chunk_size,
            event_chunks-Sendable amf enc msg c play_events a h,
          ),
        )
        a.ready a.nothing_queued room in
    (pool, rw (resp_play_command_message, play_messages-chunks amf enc msg h) run)

resp_publish_command_message-wires :
    (amf : Amf) (enc : Key × Key → List ℕ) (msg : Stream) (c : Connection)
    → CanAnswer msg c
    → IsEncoded amf enc publish_event
    → length (wires c.local_chunk_size (event_chunk msg enc publish_event ∷ [])) ≤ c.room
    → (pool : List Slice) × (resp_publish_command_message amf msg c
        ≡ ok
            (tt, handed c (wires c.local_chunk_size (event_chunk msg enc publish_event ∷ [])) pool))
unfolding resp_publish_command_message new_command_message
resp_publish_command_message-wires amf enc msg c a h room =
    let (pool, run) =
      respond-wires (event_chunk msg enc publish_event) [] c
        (event_chunks-Sendable amf enc msg c (publish_event ∷ []) a (h, tt)) a.ready
        a.nothing_queued room in
    (pool, rw (resp_publish_command_message, h.0) run)

module _ (amf : Amf) (enc : Key × Key → List ℕ) (msg : Stream) (sc : ServerConn)
    (a : CanAnswer msg sc.connection) (x : ℕ) (name : Key) (named : name ≢ []) where
  -- The connection once the command has been read.
  abbrev asking : ServerConn
  asking = record sc {
    connection = record sc.connection { transaction_id = amf.int_of x };
    play_info = record sc.play_info { stream = name };
  }

  able : CanAnswer msg asking.connection
  able = record {
    csid_lo = a.csid_lo;
    csid_hi = a.csid_hi;
    chunk_size = a.chunk_size;
    ready = a.ready;
    nothing_queued = a.nothing_queued;
  }

  -- A play command that names a stream makes the client a player of it and is answered, where the
  -- AMF library encodes the events and the socket has room: the socket is handed the wire forms of
  -- exactly six messages, of which two are user control messages that tell that the stream 1 is
  -- recorded and begins, and four are the events of playing, in their order.
  pub handle_play_command_message-wires :
      All (IsEncoded amf enc) play_events
      → length (wires sc.connection.local_chunk_size (play_chunks msg enc)) ≤ sc.connection.room
      → (pool : List Slice) × (handle_play_command_message amf msg
            (number x ∷ null ∷ text name ∷ [])
            sc
          ≡ ok (record sc {
            connection =
                handed
                  (record sc.connection { transaction_id = amf.int_of x })
                  (wires sc.connection.local_chunk_size (play_chunks msg enc))
                  pool;
            play_info = record sc.play_info { client_type = 2; stream = name };
          }))
  unfolding handle_play_command_message read_names name_stream
  handle_play_command_message-wires h room =
      let (pool, run) = resp_play_command_message-wires amf enc msg asking.connection able h room in
      (
        pool,
        rw (is_empty-false name named) (
            ap (λ o. o >>= (λ r. ok r.1))
              (on_connection-ok (resp_play_command_message amf msg) (with_client_type 2 asking)
                run)),
      )

  -- A publish command that names a stream makes the client its publisher and is answered, where the
  -- AMF library encodes the event and the socket has room, with exactly one message, the event
  -- NetStream.Publish.Start.
  pub handle_publish_command_message-wires :
      IsEncoded amf enc publish_event
      → length (wires sc.connection.local_chunk_size (event_chunk msg enc publish_event ∷ []))
        ≤ sc.connection.room
      → (pool : List Slice) × (handle_publish_command_message amf msg
            (number x ∷ null ∷ text name ∷ [])
            sc
          ≡ ok (record sc {
            connection =
                handed
                  (record sc.connection { transaction_id = amf.int_of x })
                  (wires sc.connection.local_chunk_size (event_chunk msg enc publish_event ∷ []))
                  pool;
            play_info = record sc.play_info { client_type = 1; stream = name };
          }))
  unfolding handle_publish_command_message read_names name_stream
  handle_publish_command_message-wires h room =
      let (pool, run) =
        resp_publish_command_message-wires amf enc msg asking.connection able h room in
      (
        pool,
        rw (is_empty-false name named) (
            ap (λ o. o >>= (λ r. ok r.1))
              (on_connection-ok (resp_publish_command_message amf msg) (with_client_type 1 asking)
                run)),
      )
