-- ===== src/Server/Conn/Total/Commands.antt =====
-- The command and data handlers end on any message, given an AMF library that does.
use fastlive.Base.{ℕ, ◌≡◌, arith, List, [], ◌∷◌, ◌||◌, Outcome, Key, codes, same_key}
use fastlive.Base.{ok, Ends, Finishes, returns, errs, breaks, Finishes-then, Finishes-if, ◌>>=◌}
use fastlive.Chunk.{
  Stream, msg_set_chunk_size, msg_set_peer_bandwidth, msg_window_acknowledgement_size,
  msg_amf3_command_message, msg_amf3_data_message,
}
use fastlive.Connection.{Connection}
use fastlive.Connection.Send.Keeps.{Keeps-refl, Keeps-trans, Leaves}
use fastlive.Server.Amf.{Amf, Value, null, boolean, number, int, text, object, other}
use fastlive.Server.Client.{OnMetaData}
use fastlive.Server.Conn.{
  ServerConn, owned, resp_connect_command_message, resp_create_stream_command_message,
  resp_publish_command_message, resp_play_command_message,
}
use fastlive.Server.Conn.Commands.{
  read_transaction_id, read_names, handle_connect_command_message,
  handle_create_stream_command_message, handle_publish_command_message, handle_play_command_message,
  run_command, run_decoded, handle_command_message, skip_amf3, read_data, handle_data_message,
  is_empty, with_client_type,
}
use fastlive.Server.Conn.Total.{
  KeepsConn, respond-Leaves, control-Ends, user_control-Ends, dynamic-Ends, command-Ends,
  owned-Finishes, read_connect-KeepsConn, read_transaction_id-KeepsConn, read_names-KeepsConn,
}

-- Decoding and encoding give a result, an error or a panic.
pub record IsRegular (amf : Amf) : Type 0 where
  pub decodes : (bytes : List ℕ) → Ends (amf.decode bytes)
  pub encodes : (vs : List Value) → Ends (amf.encode vs)

module _ (amf : Amf) (regular : IsRegular amf) (msg : Stream) where
  resp_connect-Leaves :
      (object_encoding : ℕ) (c : Connection)
      → Leaves c (resp_connect_command_message amf msg object_encoding c)
  unfolding resp_connect_command_message
  resp_connect-Leaves object_encoding c = respond-Leaves _ c (
    control-Ends msg_window_acknowledgement_size 4 c.window_size,
    (
      dynamic-Ends (control-Ends msg_set_peer_bandwidth 5 2500000),
      (
        control-Ends msg_set_chunk_size 4 c.local_chunk_size,
        (command-Ends _ _ (regular.encodes _), tt),
      ),
    ),
  )

  resp_create_stream-Leaves :
      (c : Connection) → Leaves c (resp_create_stream_command_message amf msg c)
  unfolding resp_create_stream_command_message
  resp_create_stream-Leaves c = respond-Leaves _ c (command-Ends _ _ (regular.encodes _), tt)

  resp_publish-Leaves : (c : Connection) → Leaves c (resp_publish_command_message amf msg c)
  unfolding resp_publish_command_message
  resp_publish-Leaves c = respond-Leaves _ c (command-Ends _ _ (regular.encodes _), tt)

  resp_play-Leaves : (c : Connection) → Leaves c (resp_play_command_message amf msg c)
  unfolding resp_play_command_message
  resp_play-Leaves c = respond-Leaves _ c (
    user_control-Ends 4 6,
    (
      user_control-Ends 0 6,
      (
        command-Ends _ _ (regular.encodes _),
        (
          command-Ends _ _ (regular.encodes _),
          (command-Ends _ _ (regular.encodes _), (command-Ends _ _ (regular.encodes _), tt)),
        ),
      ),
    ),
  )

  -- A response behind a step that keeps the connection's input and streams.
  answered :
      (sc sc' : ServerConn) {o : Outcome (Unit {0} × Connection)}
      → KeepsConn sc sc'
      → Leaves sc'.connection o
      → Finishes (KeepsConn sc) (owned sc' o >>= (λ r. ok r.1))
  answered sc sc' k l = Finishes-then (owned-Finishes sc' l) (λ r h. returns (Keeps-trans k h))

  handle_connect-KeepsConn :
      (vs : List Value) (sc : ServerConn)
      → Finishes (KeepsConn sc) (handle_connect_command_message amf msg vs sc)
  unfolding handle_connect_command_message
  handle_connect-KeepsConn vs sc = Finishes-then (read_connect-KeepsConn amf.int_of vs sc) (λ sc' k.
      Finishes-if (is_empty sc'.connect_info.app || is_empty sc'.connect_info.tc_url) (λ _. errs)
        (λ _. answered sc sc' k (resp_connect-Leaves sc'.connect_info.object_encoding _)))

  handle_create_stream-KeepsConn :
      (vs : List Value) (sc : ServerConn)
      → Finishes (KeepsConn sc) (handle_create_stream_command_message amf msg vs sc)
  unfolding handle_create_stream_command_message
  handle_create_stream-KeepsConn vs sc =
      answered sc (read_transaction_id amf.int_of vs sc)
        (read_transaction_id-KeepsConn amf.int_of vs sc) (resp_create_stream-Leaves _)

  handle_publish-KeepsConn :
      (vs : List Value) (sc : ServerConn)
      → Finishes (KeepsConn sc) (handle_publish_command_message amf msg vs sc)
  unfolding handle_publish_command_message
  handle_publish-KeepsConn vs sc =
      Finishes-if (is_empty (read_names amf.int_of 0 vs sc).play_info.stream) (λ _. errs)
        (λ _.
          answered sc (with_client_type 1 (read_names amf.int_of 0 vs sc))
            (read_names-KeepsConn amf.int_of 0 vs sc) (resp_publish-Leaves _))

  handle_play-KeepsConn :
      (vs : List Value) (sc : ServerConn)
      → Finishes (KeepsConn sc) (handle_play_command_message amf msg vs sc)
  unfolding handle_play_command_message
  handle_play-KeepsConn vs sc =
      Finishes-if (is_empty (read_names amf.int_of 0 vs sc).play_info.stream) (λ _. errs)
        (λ _.
          answered sc (with_client_type 2 (read_names amf.int_of 0 vs sc))
            (read_names-KeepsConn amf.int_of 0 vs sc) (resp_play-Leaves _))

  run_command-KeepsConn :
      (cmd : Key) (vs : List Value) (sc : ServerConn)
      → Finishes (KeepsConn sc) (run_command amf msg cmd vs sc)
  unfolding run_command
  run_command-KeepsConn cmd vs sc =
      Finishes-if (same_key cmd (codes "connect")) (λ _. handle_connect-KeepsConn vs sc)
        (λ _.
          Finishes-if (same_key cmd (codes "createStream"))
            (λ _. handle_create_stream-KeepsConn vs sc)
            (λ _.
              Finishes-if (same_key cmd (codes "publish")) (λ _. handle_publish-KeepsConn vs sc)
                (λ _.
                  Finishes-if (same_key cmd (codes "play")) (λ _. handle_play-KeepsConn vs sc)
                    (λ _. returns (Keeps-refl _)))))

  run_decoded-KeepsConn :
      (vs : List Value) (sc : ServerConn) → Finishes (KeepsConn sc) (run_decoded amf msg vs sc)
  unfolding run_decoded
  run_decoded-KeepsConn [] sc = breaks
  run_decoded-KeepsConn (text cmd ∷ vs) sc = run_command-KeepsConn cmd vs sc
  run_decoded-KeepsConn (null ∷ vs) sc = returns (Keeps-refl _)
  run_decoded-KeepsConn (boolean b ∷ vs) sc = returns (Keeps-refl _)
  run_decoded-KeepsConn (number x ∷ vs) sc = returns (Keeps-refl _)
  run_decoded-KeepsConn (int n ∷ vs) sc = returns (Keeps-refl _)
  run_decoded-KeepsConn (object v ∷ vs) sc = returns (Keeps-refl _)
  run_decoded-KeepsConn (other ∷ vs) sc = returns (Keeps-refl _)

-- Skipping a byte leaves the announced length.
skip_amf3-length :
    (amf3_type type_id : ℕ) (msg : Stream)
    → (skip_amf3 amf3_type type_id msg).message_length ≡ msg.message_length
unfolding skip_amf3
skip_amf3-length amf3_type type_id msg = ground arith

pub handle_command_message-length :
    (amf : Amf) (msg : Stream) (type_id : ℕ) (sc : ServerConn)
    → IsRegular amf
    → Finishes
        (λ r. (r.0.message_length ≡ msg.message_length) × KeepsConn sc r.1)
        (handle_command_message amf msg type_id sc)
unfolding handle_command_message
handle_command_message-length amf msg type_id sc regular =
    Finishes-then (regular.decodes _) (λ vs _.
      Finishes-then
        (run_decoded-KeepsConn amf regular (skip_amf3 msg_amf3_command_message type_id msg) vs sc)
        (λ sc' k. returns (skip_amf3-length msg_amf3_command_message type_id msg, k)))

read_data-Ends : (amf : Amf) (vs : List Value) (m : OnMetaData) → Ends (read_data amf vs m)
unfolding read_data
read_data-Ends amf [] m = breaks
read_data-Ends amf (text cmd ∷ vs) m = returns tt
read_data-Ends amf (null ∷ vs) m = returns tt
read_data-Ends amf (boolean b ∷ vs) m = returns tt
read_data-Ends amf (number x ∷ vs) m = returns tt
read_data-Ends amf (int n ∷ vs) m = returns tt
read_data-Ends amf (object v ∷ vs) m = returns tt
read_data-Ends amf (other ∷ vs) m = returns tt

pub handle_data_message-length :
    (amf : Amf) (msg : Stream) (type_id : ℕ) (m : OnMetaData)
    → IsRegular amf
    → Finishes
        (λ r. r.0.message_length ≡ msg.message_length)
        (handle_data_message amf msg type_id m)
unfolding handle_data_message
handle_data_message-length amf msg type_id m regular = Finishes-then (regular.decodes _) (λ vs _.
    Finishes-then (read_data-Ends amf vs m)
      (λ _ _. returns (skip_amf3-length msg_amf3_data_message type_id msg)))
