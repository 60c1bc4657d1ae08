-- ===== src/Server/Conn.antt =====
-- pkg/rtmp/server/server_conn.go: the state of one client's connection, and the messages with
-- which the server answers commands.
pub mod Commands
pub mod Dispatch
pub mod Cycle
pub mod Serve
pub mod Replies
pub mod Connect
pub mod Streams
pub mod Total
pub mod Exchange
pub mod Listening
pub mod Received
pub mod Handshaken
use fastlive.Base.{ℕ, ◌+◌, Bool, List, [], ◌∷◌, Option, none, some, ◌==◌, if◌then◌else◌}
use fastlive.Base.{Outcome, ok, err, panic, stuck, flush_mismatch, overwrite, Key, codes, Error}
use fastlive.Chunk.{
  Chunk, Stream, msg_window_acknowledgement_size, msg_set_peer_bandwidth, msg_set_chunk_size,
}
use fastlive.Chunk.Message.{
  new_procotol_control_message, new_user_control_message, new_command_message,
}
use fastlive.Connection.{Connection, M, ◌>>=◌, pure, lift, flush, then_with}
use fastlive.Connection.Send.{send_integral_message}
use fastlive.Server.Amf.{Amf, Value, Fields, null, int, text, object, end, field}
use fastlive.Server.Client.{ClientConnectInfo, ClientPublishOrPlayInfo, OnMetaData}

-- conn: its server is the broker that the functions take and return; `number` stands for its own
-- address. The session is at an address of the broker's memory.
pub record ServerConn : Type 0 where
  pub number : ℕ
  pub connection : Connection
  pub connect_info : ClientConnectInfo
  pub play_info : ClientPublishOrPlayInfo
  pub meta : OnMetaData
  pub sess : Option ℕ
  pub handshake_status : ℕ
  pub handshake_err : Option Error

-- A step of the embedded Connection.
abbrev pub owned : {A : Type 0} → ServerConn → Outcome (A × Connection) → Outcome (A × ServerConn)
owned sc (ok (a, c)) = ok (a, record sc { connection = c })
owned sc (err e) = err e
owned sc panic = panic
owned sc stuck = stuck

abbrev pub on_connection : {A : Type 0} → M A → ServerConn → Outcome (A × ServerConn)
on_connection m sc = owned sc (m sc.connection)

-- A constructor's error is dropped, and the nil message that comes with it is dereferenced.
unfoldable pub not_nil : Outcome Chunk → Outcome Chunk
not_nil (ok msg) = ok msg
not_nil (err e) = panic
not_nil panic = panic
not_nil stuck = stuck

-- Messages are made and sent one after the other, and the bytes counted.
unfoldable pub send_messages : List (Outcome Chunk) → ℕ → M ℕ
send_messages [] total_bytes = pure total_bytes
send_messages (made ∷ mades) total_bytes = do
  msg ← lift (not_nil made)
  nw ← send_integral_message msg
  send_messages mades (total_bytes + nw)

-- Flush, with the check that ends each response.
unfoldable pub flush_all : ℕ → M (Unit {0})
flush_all total_bytes = do
  nf ← flush
  if nf == total_bytes then pure tt else lift (err flush_mismatch)

unfoldable pub respond : List (Outcome Chunk) → M (Unit {0})
respond mades = do total_bytes ← send_messages mades 0; flush_all total_bytes

-- The object of a status event.
abbrev pub status_event : Key → Key → Fields → Value
status_event status_code description more = object (
    field (codes "level") (text (codes "status")) (
      field (codes "code") (text status_code)
        (field (codes "description") (text description) more)))

-- The peer bandwidth, whose limit type is dynamic.
abbrev pub dynamic : Outcome Chunk → Outcome Chunk
dynamic (ok msg) = ok (record msg { chunk_data = overwrite msg.chunk_data 4 (2 ∷ []) })
dynamic (err e) = panic
dynamic panic = panic
dynamic stuck = stuck

-- The values of an onStatus message.
abbrev pub status_values : Key → Key → List Value
status_values status_code description =
    text (codes "onStatus") ∷ int 0 ∷ null ∷ status_event status_code description end ∷ []

-- The values of the answer to a connect command.
abbrev pub connect_values : ℕ → ℕ → List Value
connect_values transaction_id object_encoding =
    text (codes "_result")
    ∷ int transaction_id
    ∷ object (
        field (codes "fmsVer") (text (codes "FMS/3,0,1,123"))
          (field (codes "capabilities") (int 31) end))
    ∷ status_event (codes "NetConnection.Connect.Success") (codes "Connection succeeded.")
        (field (codes "objectEncoding") (int object_encoding) end)
    ∷ []

module _ (amf : Amf) where
  -- NewCommandMessage on the chunk stream and the message stream of a request.
  abbrev pub reply : Stream → List Value → Outcome Chunk
  reply msg args = new_command_message msg.csid msg.message_stream_id (amf.encode args)

  -- An onStatus message.
  abbrev pub on_status : Stream → Key → Key → Outcome Chunk
  on_status msg status_code description = reply msg (status_values status_code description)

  abbrev pub connect_messages : Stream → ℕ → ℕ → ℕ → ℕ → List (Outcome Chunk)
  connect_messages msg window_size local_chunk_size transaction_id object_encoding =
      new_procotol_control_message msg_window_acknowledgement_size 4 window_size
      ∷ dynamic (new_procotol_control_message msg_set_peer_bandwidth 5 2500000)
      ∷ new_procotol_control_message msg_set_chunk_size 4 local_chunk_size
      ∷ reply msg (connect_values transaction_id object_encoding)
      ∷ []

  -- respConnectCommandMessage
  unfoldable pub resp_connect_command_message : Stream → ℕ → M (Unit {0})
  resp_connect_command_message msg object_encoding c =
      respond
        (connect_messages msg c.window_size c.local_chunk_size c.transaction_id object_encoding) c

  -- respCreateStreamCommandMessage
  unfoldable pub resp_create_stream_command_message : Stream → M (Unit {0})
  resp_create_stream_command_message msg c =
      respond (reply msg (text (codes "_result") ∷ int c.transaction_id ∷ null ∷ int 1 ∷ []) ∷ []) c

  -- respPublishCommandMessage
  unfoldable pub resp_publish_command_message : Stream → M (Unit {0})
  resp_publish_command_message msg =
      respond (on_status msg (codes "NetStream.Publish.Start") (codes "Start publising.") ∷ [])

  abbrev pub play_messages : Stream → List (Outcome Chunk)
  play_messages msg =
      new_user_control_message 4 6
      ∷ new_user_control_message 0 6
      ∷ on_status msg (codes "NetStream.Play.Reset") (codes "Playing and resetting stream.")
      ∷ on_status msg (codes "NetStream.Play.Start") (codes "Started playing stream.")
      ∷ on_status msg (codes "NetStream.Data.Start") (codes "Started playing stream.")
      ∷ on_status msg (codes "NetStream.Play.PublishNotify") (codes "Started playing notify.")
      ∷ []

  -- respPlayCommandMessage
  unfoldable pub resp_play_command_message : Stream → M (Unit {0})
  resp_play_command_message msg = respond (play_messages msg)
