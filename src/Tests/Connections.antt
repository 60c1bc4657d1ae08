-- ===== src/Tests/Connections.antt =====
-- A video message of five bytes between two connections whose chunks hold two bytes.
use fastlive.Base.{ℕ, List, [], ◌∷◌, ◌++◌, ok, panic, ◌≡◌, refl, arith, length, replicate, All}
use fastlive.Chunk.{Chunk, Stream, msg_set_chunk_size}
use fastlive.Chunk.Bytes.{basic_bytes, header_bytes, message_bytes}
use fastlive.Chunk.Message.{new_procotol_control_message}
use fastlive.Chunk.Slice.{Slice}
use fastlive.Connection.{Connection, flush}
use fastlive.Connection.Send.{send_integral_message}
use fastlive.Connection.Send.Wire.{wire, chunks}
use fastlive.Common.{uint_as_bytes, uint_bytes_big, uint_bytes_little}
use fastlive.Connection.Send.Refine.{Ready, IsSendable}
use fastlive.Connection.Send.Whole.{Sends, send_integral_message-wire}
use fastlive.Connection.Receive.{
  recv_integral_message, read_chunk, read_chunk_basic_header, read_chunk_message_header,
}
use fastlive.Connection.Receive.Read.{fed, read_chunk_basic_header-basic_bytes}
use fastlive.Connection.Receive.Header.{IsIdle, Fits, headed, read_chunk_message_header-first}
use fastlive.Connection.Receive.Chunk.{stream_at, stored}
use fastlive.Connection.Steps.{Ensures}
use fastlive.Connection.Receive.Total.{
  IsWhole, IsRefused, Received, read_chunk-keeps, recv_integral_message-IsWhole,
}
use fastlive.Connection.Receive.Refused.{read_chunk-panic}
use fastlive.Connection.RoundTrip.{IsReceivable, arrived, behind}
use fastlive.Connection.RoundTrip.Delivery.{send-flush-receive, recv_integral_message-wire}
use fastlive.Connection.Handlers.{
  handle_set_chunk_size_message, handle_set_chunk_size_message-announced,
}

abbrev header_buf : Slice
header_buf = record { arr = replicate 18 7; len = 18 }

abbrev pub idle : Connection
idle = record {
  input = [];
  room = 10000;
  sent = 1 ∷ 2 ∷ [];
  remote_chunk_size = 2;
  local_chunk_size = 2;
  window_size = 2500000;
  write_buf = [];
  transaction_id = 0;
  messages = [];
  encode_hdr_pool = header_buf ∷ [];
}

abbrev video : Chunk
video = record {
  header = record {
    basic_header = record { fmt = 0; csid = 6 };
    message_header = record {
      timestamp = 1000;
      message_length = 5;
      message_type_id = 9;
      message_stream_id = 1;
    };
    extended_timestamp = 0;
  };
  chunk_data = 11 ∷ 12 ∷ 13 ∷ 14 ∷ 15 ∷ [];
}

video-Fits : Fits video.message_header
video-Fits = record {
  short_timestamp = omega arith;
  length_fits = omega arith;
  type_fits = omega arith;
  stream_fits = omega arith;
}

pub idle_stream : (csid : ℕ) → IsIdle (stream_at 0 csid [])
idle_stream csid = record { nothing_read = refl; not_whole = refl; plain_timestamp = refl }

video-IsReceivable : IsReceivable video idle
video-IsReceivable = record {
  fits = video-Fits;
  csid_lo = omega arith;
  csid_hi = omega arith;
  whole = refl;
  not_empty = omega arith;
  chunk_size = omega arith;
  idle = idle_stream 6;
}

video-IsSendable : IsSendable video 2
video-IsSendable = record {
  csid_lo = omega arith;
  csid_hi = omega arith;
  whole = refl;
  bound = omega arith;
  pos_size = omega arith;
}

pub pool-Ready : All (Ready 1) (header_buf ∷ [])
pool-Ready = ((omega arith, omega arith), tt)

send-flush-receive_example :
    (bytes : List ℕ) × (c₁ : Connection) × (c₂ : Connection) × (send_integral_message video idle
      ≡ ok (length bytes, c₁))
    × (flush c₁ ≡ ok (length bytes, c₂))
    × (c₂.sent ≡ idle.sent ++ bytes)
    × (c₂.write_buf ≡ [])
    × (recv_integral_message (fed idle (bytes ++ (99 ∷ [])))
        ≡ ok (
          (6, arrived video idle),
          fed (stored 6 (arrived video idle) idle) (behind video 2 ++ (99 ∷ [])),
        ))
unfolding wire header_bytes basic_bytes message_bytes uint_as_bytes uint_bytes_big uint_bytes_little
    chunks
send-flush-receive_example =
    send-flush-receive video idle idle (99 ∷ []) video-IsReceivable refl refl (omega arith)
      pool-Ready

recv_integral_message-wire_example :
    recv_integral_message (fed idle (wire video 2 ++ (99 ∷ [])))
    ≡ ok (
      (6, arrived video idle),
      fed (stored 6 (arrived video idle) idle) (behind video 2 ++ (99 ∷ [])),
    )
recv_integral_message-wire_example =
    recv_integral_message-wire video idle (99 ∷ []) video-IsReceivable

send_integral_message-wire_example : Sends video idle (wire video 2)
unfolding basic_bytes
send_integral_message-wire_example =
    send_integral_message-wire video idle video-IsSendable (omega arith) pool-Ready

-- The same video with a timestamp that does not fit three bytes, in one chunk, and what comes next.
abbrev wide_video : Chunk
wide_video = record video {
  header = record video.header {
    message_header = record video.message_header { timestamp = 0xffffff };
  };
}

abbrev roomy : Connection
roomy = record idle { remote_chunk_size = 128 }

-- A first chunk that is cut off, and one that is whole.
recv_integral_message-IsWhole_example :
    Ensures
      (Unit {0})
      (IsWhole (fed idle (6 ∷ 0 ∷ 0 ∷ 0 ∷ 0 ∷ 0 ∷ 1 ∷ 9 ∷ 0 ∷ 0 ∷ 0 ∷ 0 ∷ 5 ∷ [])))
      (recv_integral_message (fed idle (6 ∷ 0 ∷ 0 ∷ 0 ∷ 0 ∷ 0 ∷ 1 ∷ 9 ∷ 0 ∷ 0 ∷ 0 ∷ 0 ∷ 5 ∷ [])))
recv_integral_message-IsWhole_example =
    recv_integral_message-IsWhole
      (fed idle (6 ∷ 0 ∷ 0 ∷ 0 ∷ 0 ∷ 0 ∷ 1 ∷ 9 ∷ 0 ∷ 0 ∷ 0 ∷ 0 ∷ 5 ∷ [])) tt

read_chunk-keeps_example :
    Ensures
      (IsRefused (fed idle (1 ∷ 255 ∷ 255 ∷ [])))
      (λ r c'. Received (fed idle (1 ∷ 255 ∷ 255 ∷ [])) r.1 c')
      (read_chunk (fed idle (1 ∷ 255 ∷ 255 ∷ [])))
read_chunk-keeps_example = read_chunk-keeps (fed idle (1 ∷ 255 ∷ 255 ∷ [])) tt

read_chunk-panic_example : read_chunk (fed idle (basic_bytes 0 65599 ++ (5 ∷ []))) ≡ panic
read_chunk-panic_example =
    read_chunk-panic 0 65599 (5 ∷ []) idle (omega arith) (omega arith) (omega arith) refl

read_chunk_basic_header-basic_bytes_example :
    read_chunk_basic_header (fed idle (basic_bytes 3 1000 ++ (5 ∷ [])))
    ≡ ok ((3, 1000), fed idle (5 ∷ []))
read_chunk_basic_header-basic_bytes_example =
    read_chunk_basic_header-basic_bytes 3 1000 (5 ∷ []) idle (omega arith) (omega arith)
      (omega arith)

read_chunk_message_header-first_example :
    read_chunk_message_header
      (stream_at 0 6 [])
      0
      (fed idle (message_bytes video.message_header 0 ++ (5 ∷ [])))
    ≡ ok (headed (stream_at 0 6 []) video.message_header, fed idle (5 ∷ []))
read_chunk_message_header-first_example =
    read_chunk_message_header-first video.message_header (stream_at 0 6 []) (5 ∷ []) idle video-Fits
      (idle_stream 6)

handle_set_chunk_size_message-announced_example :
    (msg : Chunk) × (bytes : List ℕ) × (c₁ : Connection) × (c₂ : Connection) × (s : Stream)
    × (r₁ : Connection) × (new_procotol_control_message msg_set_chunk_size 4 4096 ≡ ok msg)
    × (send_integral_message msg idle ≡ ok (length bytes, c₁))
    × (flush c₁ ≡ ok (length bytes, c₂))
    × (c₂.sent ≡ idle.sent ++ bytes)
    × (recv_integral_message (fed idle (bytes ++ [])) ≡ ok ((2, s), r₁))
    × ((handle_set_chunk_size_message s r₁).remote_chunk_size ≡ 4096)
unfolding wire header_bytes basic_bytes message_bytes uint_as_bytes uint_bytes_big uint_bytes_little
    chunks
handle_set_chunk_size_message-announced_example =
    handle_set_chunk_size_message-announced 4096 idle idle [] (omega arith) (idle_stream 2)
      (omega arith) refl refl (omega arith) pool-Ready
