-- ===== src/Server/Conn/Commands.antt =====
-- server_conn.go: the handlers of command and data messages.
use fastlive.Base.{ℕ, suc, Bool, List, [], ◌∷◌, length, drop, ltb, ◌==◌, ◌&&◌, ◌||◌, if◌then◌else◌}
use fastlive.Base.{Outcome, ok, err, panic, ◌>>=◌, Key, codes, same_key}
use fastlive.Base.{bad_transaction, app_required, stream_required}
use fastlive.Chunk.{Stream, msg_amf3_command_message, msg_amf3_data_message, with_data}
use fastlive.Server.Amf.{Amf, Value, number, text, object}
use fastlive.Server.Client.{read_connect_object, read_meta_object, OnMetaData}
use fastlive.Server.Conn.{
  ServerConn, on_connection, resp_connect_command_message, resp_create_stream_command_message,
  resp_publish_command_message, resp_play_command_message,
}

abbrev pub is_empty : Key → Bool
is_empty k = length k == 0

abbrev pub with_transaction_id : ℕ → ServerConn → ServerConn
with_transaction_id t sc = record sc { connection = record sc.connection { transaction_id = t } }

-- An AMF3 message has a byte in front of its values.
unfoldable pub skip_amf3 : ℕ → ℕ → Stream → Stream
skip_amf3 amf3_type type_id msg =
    if type_id == amf3_type && ltb 1 (length msg.chunk_data)
    then with_data (drop 1 msg.chunk_data) msg
    else msg

-- The loop of handleSetDataFrameDataMessage.
unfoldable pub handle_set_data_frame_data_message : (ℕ → ℕ) → List Value → OnMetaData → OnMetaData
handle_set_data_frame_data_message int_of [] m = m
handle_set_data_frame_data_message int_of (object v ∷ vs) m =
    handle_set_data_frame_data_message int_of vs (read_meta_object int_of v m)
handle_set_data_frame_data_message int_of (_ ∷ vs) m =
    handle_set_data_frame_data_message int_of vs m

-- The loop over a connect command's values.
unfoldable pub read_connect : (ℕ → ℕ) → List Value → ServerConn → Outcome ServerConn
read_connect int_of [] sc = ok sc
read_connect int_of (number x ∷ vs) sc =
    if int_of x == 1
    then read_connect int_of vs (with_transaction_id (int_of x) sc)
    else err bad_transaction
read_connect int_of (object v ∷ vs) sc =
    read_connect int_of vs
      (record sc { connect_info = read_connect_object int_of v sc.connect_info })
read_connect int_of (_ ∷ vs) sc = read_connect int_of vs sc

-- The loop over a createStream command's values.
unfoldable pub read_transaction_id : (ℕ → ℕ) → List Value → ServerConn → ServerConn
read_transaction_id int_of [] sc = sc
read_transaction_id int_of (number x ∷ vs) sc =
    read_transaction_id int_of vs (with_transaction_id (int_of x) sc)
read_transaction_id int_of (_ ∷ vs) sc = read_transaction_id int_of vs sc

-- A string among a publish or play command's values, at index `k`.
unfoldable pub name_stream : ℕ → Key → ServerConn → ServerConn
name_stream k v sc =
    if k == 2
    then record sc { play_info = record sc.play_info { stream = v } }
    else if k == 3
    then record sc { play_info = record sc.play_info { app = v } }
    else sc

-- The loop over a publish or play command's values, from index `k` on.
unfoldable pub read_names : (ℕ → ℕ) → ℕ → List Value → ServerConn → ServerConn
read_names int_of k [] sc = sc
read_names int_of k (text v ∷ vs) sc = read_names int_of (suc k) vs (name_stream k v sc)
read_names int_of k (number x ∷ vs) sc =
    read_names int_of (suc k) vs (with_transaction_id (int_of x) sc)
read_names int_of k (_ ∷ vs) sc = read_names int_of (suc k) vs sc

abbrev pub with_client_type : ℕ → ServerConn → ServerConn
with_client_type t sc = record sc { play_info = record sc.play_info { client_type = t } }

module _ (amf : Amf) where
  -- handleConnectCommandMessage
  unfoldable pub handle_connect_command_message :
      Stream → List Value → ServerConn → Outcome ServerConn
  handle_connect_command_message msg vs sc = do
    sc ← read_connect amf.int_of vs sc
    if is_empty sc.connect_info.app || is_empty sc.connect_info.tc_url
        then err app_required
        else (do
          (_, sc) ←
              on_connection (resp_connect_command_message amf msg sc.connect_info.object_encoding)
                sc
          ok sc)

  -- handleCreateStreamCommandMessage
  unfoldable pub handle_create_stream_command_message :
      Stream → List Value → ServerConn → Outcome ServerConn
  handle_create_stream_command_message msg vs sc = do
    (_, sc) ←
        on_connection (resp_create_stream_command_message amf msg)
          (read_transaction_id amf.int_of vs sc)
    ok sc

  -- handlePublishCommandMessage
  unfoldable pub handle_publish_command_message :
      Stream → List Value → ServerConn → Outcome ServerConn
  handle_publish_command_message msg vs sc =
      let named : ServerConn = read_names amf.int_of 0 vs sc in
      if is_empty named.play_info.stream then err stream_required else (do
        (_, sc) ← on_connection (resp_publish_command_message amf msg) (with_client_type 1 named)
        ok sc)

  -- handlePlayCommandMessage
  unfoldable pub handle_play_command_message : Stream → List Value → ServerConn → Outcome ServerConn
  handle_play_command_message msg vs sc =
      let named : ServerConn = read_names amf.int_of 0 vs sc in
      if is_empty named.play_info.stream then err stream_required else (do
        (_, sc) ← on_connection (resp_play_command_message amf msg) (with_client_type 2 named)
        ok sc)

  -- The switch of handleCommandMessage, on a command's name and values. The other commands, among
  -- them releaseStream, FCPublish, FCUnpublish and deleteStream, do nothing.
  unfoldable pub run_command : Stream → Key → List Value → ServerConn → Outcome ServerConn
  run_command msg cmd vs sc =
      if same_key cmd (codes "connect")
      then handle_connect_command_message msg vs sc
      else if same_key cmd (codes "createStream")
      then handle_create_stream_command_message msg vs sc
      else if same_key cmd (codes "publish")
      then handle_publish_command_message msg vs sc
      else if same_key cmd (codes "play")
      then handle_play_command_message msg vs sc
      else ok sc

  -- `vs[0]` panics where nothing was decoded.
  unfoldable pub run_decoded : Stream → List Value → ServerConn → Outcome ServerConn
  run_decoded msg [] sc = panic
  run_decoded msg (text cmd ∷ vs) sc = run_command msg cmd vs sc
  run_decoded msg (_ ∷ vs) sc = ok sc

  -- handleCommandMessage; the message loses its first byte.
  unfoldable pub handle_command_message : Stream → ℕ → ServerConn → Outcome (Stream × ServerConn)
  handle_command_message msg type_id sc = do
    let msg = skip_amf3 msg_amf3_command_message type_id msg
    vs ← amf.decode msg.chunk_data
    sc ← run_decoded msg vs sc
    ok (msg, sc)

  unfoldable pub read_data : List Value → OnMetaData → Outcome OnMetaData
  read_data [] m = panic
  read_data (text cmd ∷ vs) m = ok (
      if same_key cmd (codes "@setDataFrame")
      then handle_set_data_frame_data_message amf.int_of vs m
      else m)
  read_data (_ ∷ vs) m = ok m

  -- handleDataMessage, on the publisher's metadata.
  unfoldable pub handle_data_message : Stream → ℕ → OnMetaData → Outcome (Stream × OnMetaData)
  handle_data_message msg type_id m = do
    let msg = skip_amf3 msg_amf3_data_message type_id msg
    vs ← amf.decode msg.chunk_data
    m ← read_data vs m
    ok (msg, m)
