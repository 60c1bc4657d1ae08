-- ===== src/Server/Conn/Exchange.antt =====
-- Commands as their bytes arrive.
use fastlive.Base.{
  ℕ, ◌^◌, ◌≤◌, ◌<◌, ◌≡◌, ◌≢◌, refl, ap, ◌∙◌, List, [], ◌∷◌, ◌++◌, length, ok, panic, ◌==◌, ◌||◌,
  ◌&&◌, ltb, codes, ◌>>=◌, Outcome, err, stuck,
}
use fastlive.Chunk.{
  Chunk, Stream, msg_set_chunk_size, msg_acknowledgement, msg_window_acknowledgement_size,
  msg_audio_message, msg_video_message, msg_amf0_command_message, msg_amf3_command_message,
}
use fastlive.Connection.Handlers.{response_acknowledgement_message}
use fastlive.Connection.Receive.Read.{fed}
use fastlive.Connection.Receive.Chunk.{stored}
use fastlive.Connection.RoundTrip.{IsReceivable, arrived, behind}
use fastlive.Connection.RoundTrip.Delivery.{recv_integral_message-wire}
use fastlive.Connection.Send.Wire.{wire}
use fastlive.Server.Amf.{Amf, Value, Fields, text, number, object}
use fastlive.Server.Broker.{Broker}
use fastlive.Server.Client.{ClientConnectInfo, read_connect_object}
use fastlive.Server.Player.{done}
use fastlive.Server.Conn.{ServerConn, connect_values}
use fastlive.Server.Conn.Commands.{handle_command_message, run_decoded, run_command, skip_amf3}
use fastlive.Server.Conn.Dispatch.{
  handle_message, handled_command, put_reset, reset_handled, with_connection,
  on_recv_integral_message,
}
use fastlive.Server.Conn.Cycle.{serve_message}
use fastlive.Server.Conn.Replies.{handed}
use fastlive.Server.Conn.Connect.{CanAnswer, connect_reply, handle_connect_command_message-wires}

-- The switch sends an AMF0 command to its handler.
handle_message-command :
    (amf : Amf) (msg : Stream) (sc : ServerConn) (b : Broker)
    → msg.message_type_id ≡ msg_amf0_command_message
    → handle_message amf msg sc b
      ≡ (handle_command_message amf msg msg.message_type_id sc >>= (λ r. ok (handled_command b r)))
unfolding handle_message
handle_message-command amf msg sc b typ =
    rw
      (
        handle_message,
        ap (λ t. t == msg_set_chunk_size) typ,
        ap (λ t. t == msg_acknowledgement) typ,
        ap (λ t. t == msg_window_acknowledgement_size) typ,
        ap (λ t. t == msg_audio_message || t == msg_video_message) typ,
        ap (λ t. t == msg_amf0_command_message || t == msg_amf3_command_message) typ,
      )
      refl

-- An AMF0 command has no byte to skip.
skip_amf3-command :
    (msg : Stream)
    → msg.message_type_id ≡ msg_amf0_command_message
    → skip_amf3 msg_amf3_command_message msg.message_type_id msg ≡ msg
unfolding skip_amf3
skip_amf3-command msg typ =
    rw (ap (λ t. t == msg_amf3_command_message && ltb 1 (length msg.chunk_data)) typ) refl

module _ (amf : Amf) (csid : ℕ) (msg : Stream) (sc : ServerConn) (b : Broker)
    (typ : msg.message_type_id ≡ msg_amf0_command_message) (vs : List Value)
    (decoded : amf.decode msg.chunk_data ≡ ok vs) where
  handle_command_message-decoded :
      (o : Outcome ServerConn)
      → run_decoded amf msg vs sc ≡ o
      → handle_message amf msg sc b ≡ (o >>= (λ sc'. ok (done (msg, sc', b))))
  unfolding handle_command_message
  handle_command_message-decoded (ok sc') e =
      handle_message-command amf msg sc b typ
      ∙ rw (handle_command_message, skip_amf3-command msg typ, decoded, e) refl
  handle_command_message-decoded (err x) e =
      handle_message-command amf msg sc b typ
      ∙ rw (handle_command_message, skip_amf3-command msg typ, decoded, e) refl
  handle_command_message-decoded panic e =
      handle_message-command amf msg sc b typ
      ∙ rw (handle_command_message, skip_amf3-command msg typ, decoded, e) refl
  handle_command_message-decoded stuck e =
      handle_message-command amf msg sc b typ
      ∙ rw (handle_command_message, skip_amf3-command msg typ, decoded, e) refl

-- The message whose wire form is at the head of a connection's input.
abbrev pub sent_to : ServerConn → Chunk → List ℕ → ServerConn
sent_to sc msg rest =
    with_connection sc (fed sc.connection (wire msg sc.connection.remote_chunk_size ++ rest))

-- The connection once the message has been received.
abbrev pub took : ServerConn → Chunk → List ℕ → ServerConn
took sc msg rest = with_connection sc (
    fed (stored msg.csid (arrived msg sc.connection) sc.connection)
      (behind msg sc.connection.remote_chunk_size ++ rest))

-- A client whose command message (of the type for AMF0) decodes to no value at all, without an error
-- but the end of the data, makes the server panic: the handler looks at the first of no values. The
-- message is one that the connection receives: not empty, with a timestamp below 0xffffff, on a
-- chunk stream that is between messages and has had no extended timestamp.
pub serve_message-undecoded :
    (amf : Amf) (msg : Chunk) (rest : List ℕ) (sc : ServerConn) (b : Broker)
    → IsReceivable msg sc.connection
    → msg.message_type_id ≡ msg_amf0_command_message
    → amf.decode msg.chunk_data ≡ ok []
    → serve_message amf (sent_to sc msg rest) b ≡ panic
unfolding serve_message on_recv_integral_message response_acknowledgement_message run_decoded
serve_message-undecoded amf msg rest sc b v typ nothing =
    rw (serve_message, recv_integral_message-wire msg sc.connection rest v)
      (ap (λ o. o >>= (λ r. ok (reset_handled msg.csid r)))
        (handle_command_message-decoded amf msg.csid (arrived msg sc.connection) (took sc msg rest)
          b typ [] nothing panic refl))

-- What a connect command that is accepted leaves: the client's fields, and the answer in the
-- socket behind what had been sent; the input behind the command is left.
pub record Connected (sc : ServerConn) (msg : Chunk) (rest bytes : List ℕ)
    (info : ClientConnectInfo) (sc' : ServerConn) : Type 0 where
  pub info_kept : sc'.connect_info ≡ info
  pub transaction : sc'.connection.transaction_id ≡ 1
  pub answered :
      sc'.connection.sent
      ≡ sc.connection.sent ++ connect_reply (arrived msg sc.connection) sc.connection bytes
  pub nothing_queued : sc'.connection.write_buf ≡ []
  pub left : sc'.connection.input ≡ behind msg sc.connection.remote_chunk_size ++ rest

-- A client that sends a connect command with the transaction id 1 and an object that names an
-- application and a URL has its fields kept and is answered: behind what the socket has been handed
-- before come the wire forms of the window size, the peer bandwidth, the local chunk size and the
-- `_result` command, and nothing stays queued. (The command has a timestamp below 0xffffff and comes
-- on a chunk stream that is between messages; the AMF library decodes it and encodes its answer; the
-- socket has room.)
pub serve_message-connect :
    (amf : Amf) (msg : Chunk) (rest : List ℕ) (sc : ServerConn) (b : Broker) (x : ℕ) (v : Fields)
    (bytes : List ℕ)
    → IsReceivable msg sc.connection
    → msg.message_type_id ≡ msg_amf0_command_message
    → amf.decode msg.chunk_data ≡ ok (text (codes "connect") ∷ number x ∷ object v ∷ [])
    → CanAnswer (arrived msg sc.connection) sc.connection
    → amf.int_of x ≡ 1
    → (read_connect_object amf.int_of v sc.connect_info).app ≢ []
    → (read_connect_object amf.int_of v sc.connect_info).tc_url ≢ []
    → amf.encode
        (connect_values 1 (read_connect_object amf.int_of v sc.connect_info).object_encoding)
      ≡ ok bytes
    → 0 < length bytes
    → length bytes < 2 ^ 32
    → length (connect_reply (arrived msg sc.connection) sc.connection bytes) ≤ sc.connection.room
    → (sc' : ServerConn) × (serve_message amf (sent_to sc msg rest) b ≡ ok (done (sc', b)))
      × Connected sc msg rest bytes (read_connect_object amf.int_of v sc.connect_info) sc'
unfolding serve_message on_recv_integral_message response_acknowledgement_message run_decoded
    run_command
serve_message-connect amf msg rest sc b x v bytes r typ decoded a one app url enc h bound room =
    let (pool, run) =
      handle_connect_command_message-wires amf (arrived msg sc.connection) (took sc msg rest) bytes
        (record {
          csid_lo = a.csid_lo;
          csid_hi = a.csid_hi;
          chunk_size = a.chunk_size;
          ready = a.ready;
          nothing_queued = a.nothing_queued;
        })
        h bound x v one app url enc room in
    let handled : ServerConn = record (took sc msg rest) {
      connection =
          handed (record (took sc msg rest).connection { transaction_id = 1 })
            (connect_reply (arrived msg sc.connection) sc.connection bytes) pool;
      connect_info = read_connect_object amf.int_of v sc.connect_info;
    } in
    (
      with_connection handled (put_reset msg.csid (arrived msg sc.connection) handled.connection),
      rw (serve_message, recv_integral_message-wire msg sc.connection rest r)
          (ap (λ o. o >>= (λ r. ok (reset_handled msg.csid r)))
            (handle_command_message-decoded amf msg.csid (arrived msg sc.connection)
              (took sc msg rest) b typ (text (codes "connect") ∷ number x ∷ object v ∷ []) decoded
              (ok handled) run)),
      record {
        info_kept = refl;
        transaction = refl;
        answered = refl;
        nothing_queued = refl;
        left = refl;
      },
    )
