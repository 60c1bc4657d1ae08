-- ===== src/Chunk.antt =====
-- pkg/rtmp/chunk: the structs that a chunk is made of. A struct that embeds another holds it as
-- a field and passes its fields on, as Go does. `Encode` encodes the headers, `Message` builds
-- the server's own messages, `Bytes` says what the encoders write.
pub mod Slice
pub mod Encode
pub mod BasicLaws
pub mod MessageLaws
pub mod EncodeLaws
pub mod ShortSlice
pub mod Bytes
pub mod Message
pub mod Ends
use fastlive.Base.{ℕ, ◌<◌, Bool, true, false, List, [], ◌||◌, ltb, if◌then◌else◌}
use fastlive.Base.{Outcome, ok, err, Error, bad_fmt, bad_csid}

pub record BasicHeader : Type 0 where
  pub fmt : ℕ
  pub csid : ℕ

pub record MessageHeader : Type 0 where
  pub timestamp : ℕ
  pub message_length : ℕ
  pub message_type_id : ℕ
  pub message_stream_id : ℕ

pub record Header : Type 0 where
  pub basic_header : BasicHeader
  pub open basic_header use *
  pub message_header : MessageHeader
  pub open message_header use *
  pub extended_timestamp : ℕ

pub record Chunk : Type 0 where
  pub header : Header
  pub open header use *
  pub chunk_data : List ℕ

-- The state of one chunk stream: the message that is being put together.
pub record Stream : Type 0 where
  pub chunk : Chunk
  pub open chunk use *
  pub first_chunk : Bool
  pub has_read : ℕ
  pub is_intergral : Bool
  pub timestamp_delta : ℕ
  pub is_extended_timestamp : Bool

-- The message type ids of consts.go.
abbrev pub msg_set_chunk_size : ℕ
msg_set_chunk_size = 0x01

abbrev pub msg_abort_message : ℕ
msg_abort_message = 0x02

abbrev pub msg_acknowledgement : ℕ
msg_acknowledgement = 0x03

abbrev pub msg_user_control_message : ℕ
msg_user_control_message = 0x04

abbrev pub msg_window_acknowledgement_size : ℕ
msg_window_acknowledgement_size = 0x05

abbrev pub msg_set_peer_bandwidth : ℕ
msg_set_peer_bandwidth = 0x06

abbrev pub msg_audio_message : ℕ
msg_audio_message = 0x08

abbrev pub msg_video_message : ℕ
msg_video_message = 0x09

abbrev pub msg_amf3_data_message : ℕ
msg_amf3_data_message = 0x0f

abbrev pub msg_amf3_command_message : ℕ
msg_amf3_command_message = 0x11

abbrev pub msg_amf0_data_message : ℕ
msg_amf0_data_message = 0x12

abbrev pub msg_amf0_command_message : ℕ
msg_amf0_command_message = 0x14

-- `new(Chunk)` and `&Stream{}`: every field at its zero value.
abbrev pub zero_chunk : Chunk
zero_chunk = record {
  header = record {
    basic_header = record { fmt = 0; csid = 0 };
    message_header = record {
      timestamp = 0;
      message_length = 0;
      message_type_id = 0;
      message_stream_id = 0;
    };
    extended_timestamp = 0;
  };
  chunk_data = [];
}

-- The options of stream.go that the connection applies to a stream.
abbrev pub with_timestamp : ℕ → Stream → Stream
with_timestamp t s = record s {
  chunk = record s.chunk {
    header = record s.chunk.header { message_header = record s.message_header { timestamp = t } };
  };
}

abbrev pub with_length_type : ℕ → ℕ → Stream → Stream
with_length_type n t s = record s {
  chunk = record s.chunk {
    header = record s.chunk.header {
      message_header = record s.message_header { message_length = n; message_type_id = t };
    };
  };
}

abbrev pub with_stream_id : ℕ → Stream → Stream
with_stream_id i s = record s {
  chunk = record s.chunk {
    header = record s.chunk.header {
      message_header = record s.message_header { message_stream_id = i };
    };
  };
}

abbrev pub with_data : List ℕ → Stream → Stream
with_data d s = record s { chunk = record s.chunk { chunk_data = d } }

-- A stream that no chunk has been read for.
abbrev pub fresh_stream : ℕ → ℕ → Bool → Stream
fresh_stream fmt csid first = record {
  chunk = record zero_chunk {
    header = record zero_chunk.header { basic_header = record { fmt = fmt; csid = csid } };
  };
  first_chunk = first;
  has_read = 0;
  is_intergral = false;
  timestamp_delta = 0;
  is_extended_timestamp = false;
}

-- NewStream with the options that RecvIntegralMessage gives it. The error comes with a nil stream.
unfoldable pub new_stream : ℕ → ℕ → Bool → Outcome Stream
new_stream fmt csid first =
    if ltb 3 fmt
    then err bad_fmt
    else if ltb csid 2 || ltb 65559 csid
    then err bad_csid
    else ok (fresh_stream fmt csid first)

-- Stream.Reset
unfoldable pub reset : Stream → Stream
reset s = record s { has_read = 0; is_intergral = false }
