-- ===== src/Server/Conn/Connect.antt =====
-- The connect command.
use fastlive.Base.{
  ℕ, ◌%◌, ◌^◌, ◌≤◌, ◌<◌, ◌≡◌, ◌≢◌, refl, ap, arith, List, [], ◌∷◌, ◌++◌, length, All, ok, map,
}
use fastlive.Base.{true, false, Key, ne→==, length-append, ◌>>=◌}
use fastlive.Common.{uint_as_bytes, uint_bytes_big}
use fastlive.Common.Bytes.{length-uint_as_bytes}
use fastlive.Chunk.{
  Chunk, Stream, msg_window_acknowledgement_size, msg_set_peer_bandwidth, msg_set_chunk_size,
  msg_amf0_command_message,
}
use fastlive.Chunk.Message.{new_chunk, new_procotol_control_message, new_command_message}
use fastlive.Chunk.Slice.{Slice}
use fastlive.Connection.{Connection}
use fastlive.Connection.Send.Refine.{Ready}
use fastlive.Server.Amf.{Amf, Fields, number, object}
use fastlive.Server.Client.{ClientConnectInfo, read_connect_object}
use fastlive.Server.Conn.{
  ServerConn, connect_messages, connect_values, resp_connect_command_message,
}
use fastlive.Server.Conn.Commands.{handle_connect_command_message, read_connect, is_empty}
use fastlive.Server.Conn.Replies.{wires, Sendable, handed, respond-wires, on_connection-ok}

-- The command message with the AMF bytes `bytes`.
abbrev pub command_chunk : Stream → List ℕ → Chunk
command_chunk msg bytes =
    new_chunk msg.csid (length bytes % 2 ^ 32) msg_amf0_command_message msg.message_stream_id bytes

-- What a connect command is answered with.
abbrev pub window_chunk : ℕ → Chunk
window_chunk window_size =
    new_chunk 2 4 msg_window_acknowledgement_size 0 (uint_as_bytes window_size 4 true)

abbrev pub later_chunks : Stream → ℕ → List ℕ → List Chunk
later_chunks msg local_chunk_size bytes =
    new_chunk 2 5 msg_set_peer_bandwidth 0 (uint_as_bytes 2500000 4 true ++ (2 ∷ []))
    ∷ new_chunk 2 4 msg_set_chunk_size 0 (uint_as_bytes local_chunk_size 4 true)
    ∷ command_chunk msg bytes
    ∷ []

abbrev pub connect_chunks : Stream → ℕ → ℕ → List ℕ → List Chunk
connect_chunks msg window_size local_chunk_size bytes =
    window_chunk window_size ∷ later_chunks msg local_chunk_size bytes

pub command_chunk-Sendable :
    (size : ℕ) (msg : Stream) (bytes : List ℕ)
    → 0 < size
    → 2 ≤ msg.csid
    → msg.csid ≤ 65599
    → 0 < length bytes
    → length bytes < 2 ^ 32
    → Sendable size (command_chunk msg bytes)
command_chunk-Sendable size msg bytes pos lo hi h bound = (
  record {
    csid_lo = lo;
    csid_hi = hi;
    whole = omega (arith, bound);
    bound = omega (arith, bound);
    pos_size = pos;
  },
  omega (arith, h, bound),
)

-- The server's own control messages can be sent.
pub control_chunk-Sendable :
    (size n type_id sid : ℕ) (bytes : List ℕ)
    → 0 < size
    → length bytes ≡ n
    → 0 < n
    → n < 2 ^ 32
    → Sendable size (new_chunk 2 n type_id sid bytes)
control_chunk-Sendable size n type_id sid bytes pos e h bound = (
  record { csid_lo = omega arith; csid_hi = omega arith; whole = e; bound = bound; pos_size = pos },
  h,
)

pub is_empty-false : (k : Key) → k ≢ [] → is_empty k ≡ false
is_empty-false [] h = absurd (h refl)
is_empty-false (x ∷ k) h = ne→== (length (x ∷ k)) 0 (omega arith)

-- A connection that can answer a request: a chunk stream id that the encoder takes, buffers for
-- every header, and nothing queued.
pub record CanAnswer (msg : Stream) (c : Connection) : Type 0 where
  pub csid_lo : 2 ≤ msg.csid
  pub csid_hi : msg.csid ≤ 65599
  pub chunk_size : 0 < c.local_chunk_size
  pub ready : All (Ready 3) c.encode_hdr_pool
  pub nothing_queued : c.write_buf ≡ []

-- What the socket is handed.
abbrev pub connect_reply : Stream → Connection → List ℕ → List ℕ
connect_reply msg c bytes =
    wires c.local_chunk_size (connect_chunks msg c.window_size c.local_chunk_size bytes)

connect_messages-chunks :
    (amf : Amf) (msg : Stream) (w l t e : ℕ) (bytes : List ℕ)
    → amf.encode (connect_values t e) ≡ ok bytes
    → connect_messages amf msg w l t e ≡ map ok (connect_chunks msg w l bytes)
unfolding new_procotol_control_message new_command_message uint_as_bytes uint_bytes_big
connect_messages-chunks amf msg w l t e bytes h = rw h refl

connect_chunks-Sendable :
    (msg : Stream) (c : Connection) (bytes : List ℕ)
    → CanAnswer msg c
    → 0 < length bytes
    → length bytes < 2 ^ 32
    → All (Sendable c.local_chunk_size) (connect_chunks msg c.window_size c.local_chunk_size bytes)
connect_chunks-Sendable msg c bytes a h bound = (
  control 4 msg_window_acknowledgement_size _ (length-uint_as_bytes c.window_size 4 true)
      (omega arith) (omega arith),
  (
    control 5 msg_set_peer_bandwidth _ bandwidth (omega arith) (omega arith),
    (
      control 4 msg_set_chunk_size _ (length-uint_as_bytes c.local_chunk_size 4 true) (omega arith)
          (omega arith),
      (
        command_chunk-Sendable c.local_chunk_size msg bytes a.chunk_size a.csid_lo a.csid_hi h
            bound,
        tt,
      ),
    ),
  ),
)
  where
    control :
        (n type_id : ℕ) (data_bytes : List ℕ)
        → length data_bytes ≡ n
        → 0 < n
        → n < 2 ^ 32
        → Sendable c.local_chunk_size (new_chunk 2 n type_id 0 data_bytes)
    control n type_id data_bytes e pos small =
        control_chunk-Sendable c.local_chunk_size n type_id 0 data_bytes a.chunk_size e pos small

    bandwidth : length (uint_as_bytes 2500000 4 true ++ (2 ∷ [])) ≡ 5
    bandwidth = omega (
      arith,
      length-append (uint_as_bytes 2500000 4 true) (2 ∷ []),
      length-uint_as_bytes 2500000 4 true,
    )

resp_connect_command_message-wires :
    (amf : Amf) (msg : Stream) (object_encoding : ℕ) (c : Connection) (bytes : List ℕ)
    → CanAnswer msg c
    → 0 < length bytes
    → length bytes < 2 ^ 32
    → amf.encode (connect_values c.transaction_id object_encoding) ≡ ok bytes
    → length (connect_reply msg c bytes) ≤ c.room
    → (pool : List Slice) × (resp_connect_command_message amf msg object_encoding c
        ≡ ok (tt, handed c (connect_reply msg c bytes) pool))
unfolding resp_connect_command_message
resp_connect_command_message-wires amf msg object_encoding c bytes a h bound enc room =
    let (pool, run) =
      respond-wires (window_chunk c.window_size) (later_chunks msg c.local_chunk_size bytes) c
        (connect_chunks-Sendable msg c bytes a h bound) a.ready a.nothing_queued room in
    (
      pool,
      rw
          (
            resp_connect_command_message,
            connect_messages-chunks amf msg c.window_size c.local_chunk_size c.transaction_id
                object_encoding bytes enc,
          )
          run,
    )

module _ (amf : Amf) (msg : Stream) (sc : ServerConn) (bytes : List ℕ)
    (a : CanAnswer msg sc.connection) (h : 0 < length bytes) (bound : length bytes < 2 ^ 32) where
  -- A connect command with the transaction id 1 and an object that names an application and a URL
  -- is answered, where the AMF library encodes the answer and the socket has room: the client's
  -- fields are kept, and the socket is handed the wire forms of exactly four messages: the window
  -- size, the peer bandwidth of 2500000 with the dynamic limit, the local chunk size, and the
  -- `_result` command on the request's chunk stream and message stream.
  pub handle_connect_command_message-wires :
      (x : ℕ) (v : Fields)
      → amf.int_of x ≡ 1
      → (read_connect_object amf.int_of v sc.connect_info).app ≢ []
      → (read_connect_object amf.int_of v sc.connect_info).tc_url ≢ []
      → amf.encode
          (connect_values 1 (read_connect_object amf.int_of v sc.connect_info).object_encoding)
        ≡ ok bytes
      → length (connect_reply msg sc.connection bytes) ≤ sc.connection.room
      → (pool : List Slice) × (handle_connect_command_message amf msg (number x ∷ object v ∷ []) sc
          ≡ ok (record sc {
            connection =
                handed
                  (record sc.connection { transaction_id = 1 })
                  (connect_reply msg sc.connection bytes)
                  pool;
            connect_info = read_connect_object amf.int_of v sc.connect_info;
          }))
  unfolding handle_connect_command_message read_connect
  handle_connect_command_message-wires x v one app url enc room =
      let (pool, run) =
        resp_connect_command_message-wires amf msg info.object_encoding
          (record sc.connection { transaction_id = 1 }) bytes
          (record {
            csid_lo = a.csid_lo;
            csid_hi = a.csid_hi;
            chunk_size = a.chunk_size;
            ready = a.ready;
            nothing_queued = a.nothing_queued;
          })
          h bound enc room in
      (
        pool,
        rw (one, is_empty-false info.app app, is_empty-false info.tc_url url)
            (ap (λ o. o >>= (λ r. ok r.1))
              (on_connection-ok (resp_connect_command_message amf msg info.object_encoding) asked
                run)),
      )
    where
      info : ClientConnectInfo
      info = read_connect_object amf.int_of v sc.connect_info

      asked : ServerConn
      asked = record sc {
        connection = record sc.connection { transaction_id = 1 };
        connect_info = info;
      }
