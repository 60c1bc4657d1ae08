-- ===== src/Chunk/Message.antt =====
-- pkg/rtmp/chunk/message.go: the messages that the server makes itself. A fresh Chunk holds the
-- zero value where no option sets a field.
use fastlive.Base.{ℕ, ◌/◌, ◌%◌, ◌^◌, Bool, List, ◌∷◌, ltb, ◌==◌, ◌||◌, not}
use fastlive.Base.{if◌then◌else◌, true, replicate, overwrite, length}
use fastlive.Base.{Outcome, ok, err, panic, stuck, bad_control_length, bad_control_type}
use fastlive.Common.{uint_as_bytes}
use fastlive.Chunk.{
  Chunk, msg_set_chunk_size, msg_abort_message, msg_acknowledgement,
  msg_window_acknowledgement_size, msg_set_peer_bandwidth, msg_user_control_message,
  msg_amf0_command_message,
}

-- chunk.New with all the options that message.go gives it.
abbrev pub new_chunk : ℕ → ℕ → ℕ → ℕ → List ℕ → Chunk
new_chunk csid message_length type_id stream_id bytes = record {
  header = record {
    basic_header = record { fmt = 0; csid = csid };
    message_header = record {
      timestamp = 0;
      message_length = message_length;
      message_type_id = type_id;
      message_stream_id = stream_id;
    };
    extended_timestamp = 0;
  };
  chunk_data = bytes;
}

-- The types that the switch of NewProcotolControlMessage lets through.
abbrev pub is_control_type : ℕ → Bool
is_control_type type_id =
    type_id == msg_set_chunk_size
    || type_id == msg_abort_message
    || type_id == msg_acknowledgement
    || type_id == msg_window_acknowledgement_size
    || type_id == msg_set_peer_bandwidth

-- NewProcotolControlMessage: `value` goes into the first four of `size` bytes.
unfoldable pub new_procotol_control_message : ℕ → ℕ → ℕ → Outcome Chunk
new_procotol_control_message type_id size value =
    if ltb size 4
    then err bad_control_length
    else if not (is_control_type type_id)
    then err bad_control_type
    else ok
        (new_chunk 2 size type_id 0 (overwrite (replicate size 0) 0 (uint_as_bytes value 4 true)))

-- NewlUserControlMessage: the event's type and the stream id 1.
unfoldable pub new_user_control_message : ℕ → ℕ → Outcome Chunk
new_user_control_message event_type size =
    if ltb size 6
    then err bad_control_length
    else ok (
        new_chunk 2 size msg_user_control_message 1 (
          overwrite (replicate size 0) 0
            ((event_type / 2 ^ 8 % 2 ^ 8) ∷ (event_type % 2 ^ 8) ∷ uint_as_bytes 1 4 true)))

-- NewCommandMessage, given what the AMF encoder makes of its arguments: their bytes or an error.
unfoldable pub new_command_message : ℕ → ℕ → Outcome (List ℕ) → Outcome Chunk
new_command_message csid stream_id (ok bytes) =
    ok (new_chunk csid (length bytes % 2 ^ 32) msg_amf0_command_message stream_id bytes)
new_command_message csid stream_id (err e) = err e
new_command_message csid stream_id panic = panic
new_command_message csid stream_id stuck = stuck
