-- ===== src/Server/Conn/Dispatch.antt =====
-- server_conn.go: onRecvIntegralMessage, on the connection and the broker's memory. A session that
-- a connection holds is one that it publishes, so the metadata of the session's publisher is its
-- own.
use fastlive.Base.{ℕ, ◌==◌, ◌||◌, not, if◌then◌else◌, none, some, get_elem?}
use fastlive.Base.{Outcome, ok, err, panic, ◌>>=◌, not_publisher}
use fastlive.Chunk.{
  Stream, reset, msg_set_chunk_size, msg_acknowledgement, msg_window_acknowledgement_size,
  msg_audio_message, msg_video_message, msg_amf0_command_message, msg_amf3_command_message,
  msg_amf0_data_message, msg_amf3_data_message,
}
use fastlive.Connection.{Connection, store}
use fastlive.Connection.Handlers.{
  response_acknowledgement_message, handle_set_chunk_size_message, handle_acknowledgement_message,
  handle_window_acknowledgement_size_message,
}
use fastlive.Server.Amf.{Amf}
use fastlive.Server.Client.{OnMetaData}
use fastlive.Server.Player.{Progress, done, blocked}
use fastlive.Server.Session.{Session, on_recv_av_message, on_recv_data_message}
use fastlive.Server.Broker.{Broker, write_session}
use fastlive.Server.Conn.{ServerConn}
use fastlive.Server.Conn.Commands.{handle_command_message, handle_data_message}

-- What a message leaves: itself, the connection and the broker.
abbrev pub Handled : Type 0
Handled = Stream × ServerConn × Broker

abbrev pub with_connection : ServerConn → Connection → ServerConn
with_connection sc c = record sc { connection = c }

-- A session that has taken a packet, or waits for one of its players.
abbrev pub keep_session : ℕ → Stream → ServerConn → Broker → Progress Session → Progress Handled
keep_session a msg sc b (done s) = done (msg, sc, write_session a s b)
keep_session a msg sc b blocked = blocked

-- Audio and video messages.
unfoldable pub handle_av_message : Stream → ℕ → ServerConn → Broker → Outcome (Progress Handled)
handle_av_message msg type_id sc b = elim sc.sess [
  | none ↦ if not (sc.play_info.client_type == 1) then err not_publisher else ok (done (msg, sc, b))
  | some a ↦ elim (get_elem? b.sessions a) [
    | none ↦ panic
    | some s ↦ (do r ← on_recv_av_message msg type_id s; ok (keep_session a msg sc b r))
  ]
]

abbrev pub with_meta : ServerConn → OnMetaData → ServerConn
with_meta sc m = record sc { meta = m }

-- Data messages. A session that has lost its publisher ignores them.
unfoldable pub handle_session_data :
    Amf → Stream → ℕ → ServerConn → Broker → Outcome (Progress Handled)
handle_session_data amf msg type_id sc b = elim sc.sess [
  | none ↦ ok (done (msg, sc, b))
  | some a ↦ elim (get_elem? b.sessions a) [
    | none ↦ panic
    | some s ↦ elim s.publisher [
      | none ↦ ok (done (msg, sc, b))
      | some _ ↦ (do
        (msg, m) ← handle_data_message amf msg type_id sc.meta
        r ← on_recv_data_message (ok msg) s
        ok (keep_session a msg (with_meta sc m) b r))
    ]
  ]
]

abbrev pub handled_command : Broker → Stream × ServerConn → Progress Handled
handled_command b (msg, sc) = done (msg, sc, b)

-- The switch on the message's type.
unfoldable pub handle_message : Amf → Stream → ServerConn → Broker → Outcome (Progress Handled)
handle_message amf msg sc b =
    let t : ℕ = msg.message_type_id in
    if t == msg_set_chunk_size
    then ok (done (msg, with_connection sc (handle_set_chunk_size_message msg sc.connection), b))
    else if t == msg_acknowledgement
    then ok (done (msg, with_connection sc (handle_acknowledgement_message msg sc.connection), b))
    else if t == msg_window_acknowledgement_size
    then ok (
        done (
          msg,
          with_connection sc (handle_window_acknowledgement_size_message msg sc.connection),
          b,
        ))
    else if t == msg_audio_message || t == msg_video_message
    then handle_av_message msg t sc b
    else if t == msg_amf0_command_message || t == msg_amf3_command_message
    then (do r ← handle_command_message amf msg t sc; ok (handled_command b r))
    else if t == msg_amf0_data_message || t == msg_amf3_data_message
    then handle_session_data amf msg t sc b
    else ok (done (msg, sc, b))

-- The deferred Reset: the stream `csid` is between messages again.
abbrev pub put_reset : ℕ → Stream → Connection → Connection
put_reset csid msg c = record c { messages = store csid (reset msg) c.messages }

abbrev pub reset_handled : ℕ → Progress Handled → Progress (ServerConn × Broker)
reset_handled csid (done (msg, sc, b)) =
    done (with_connection sc (put_reset csid msg sc.connection), b)
reset_handled csid blocked = blocked

-- onRecvIntegralMessage, on the message of the chunk stream `csid`.
unfoldable pub on_recv_integral_message :
    Amf → ℕ → Stream → ServerConn → Broker → Outcome (Progress (ServerConn × Broker))
on_recv_integral_message amf csid msg sc b = do
  r ← handle_message amf msg (with_connection sc (response_acknowledgement_message sc.connection)) b
  ok (reset_handled csid r)
