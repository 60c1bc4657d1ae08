-- ===== src/Tests/Clients.antt =====
-- A client that connects and plays, with an AMF library that knows one command.
use fastlive.Base.{
  ℕ, List, [], ◌∷◌, ◌++◌, ok, panic, none, ◌≡◌, refl, arith, Key, codes, false, Finishes, returns,
}
use fastlive.Common.{uint_as_bytes, uint_bytes_big, uint_bytes_little}
use fastlive.Chunk.{Chunk, Stream, msg_amf0_command_message}
use fastlive.Chunk.Bytes.{basic_bytes, header_bytes, message_bytes}
use fastlive.Chunk.Message.{new_chunk}
use fastlive.Chunk.Slice.{Slice}
use fastlive.Connection.{Connection}
use fastlive.Connection.Receive.{recv_integral_message}
use fastlive.Connection.Receive.Read.{fed}
use fastlive.Connection.RoundTrip.{IsReceivable, arrived}
use fastlive.Connection.Send.Wire.{wire, chunks}
use fastlive.Server.Amf.{Amf, Value, Fields, text, number, object, field, end}
use fastlive.Server.Broker.{Broker, no_sessions}
use fastlive.Server.Client.{no_connect_info, no_play_info, no_meta_data, read_connect_object}
use fastlive.Server.Client.Keys.{gen_stream_key_unique}
use fastlive.Server.Player.{done}
use fastlive.Server.Conn.{ServerConn}
use fastlive.Server.Conn.Commands.{handle_play_command_message}
use fastlive.Server.Conn.Connect.{CanAnswer, connect_chunks}
use fastlive.Server.Conn.Replies.{wires, handed}
use fastlive.Server.Conn.Streams.{play_chunks, handle_play_command_message-wires}
use fastlive.Server.Conn.Exchange.{
  sent_to, Connected, serve_message-connect, serve_message-undecoded,
}
use fastlive.Server.Conn.Received.{connect_reply-received}
use fastlive.Server.Conn.Dispatch.{with_connection}
use fastlive.Server.Conn.Cycle.{serve_message}
use fastlive.Server.Conn.Serve.{World, serve, handshake}
use fastlive.Server.Conn.Total.Commands.{IsRegular}
use fastlive.Server.Conn.Total.Grown.{Leftover}
use fastlive.Server.Conn.Total.Serve.{IsOrdinary, serve-Leftover}
use fastlive.Server.Conn.Handshaken.{IsKept, handshake-again}
use fastlive.Server.Options.{Config, IsComplete, IsFresh, load_options, accept, load_options-accept}
use fastlive.Tests.Connections.{idle, idle_stream}
use fastlive.Tests.Registry.{one}
use fastlive.Tests.Handshakes.{fives, fives_size, sevens, sevens_size}

-- The values of every message.
abbrev connect_object : Fields
connect_object =
    field (codes "app") (text (codes "live"))
      (field (codes "tcUrl") (text (codes "rtmp://h/live")) end)

abbrev amf_of : List Value → Amf
amf_of vs = record { decode = λ bytes. ok vs; encode = λ vs. ok (1 ∷ 2 ∷ []); int_of = λ x. x }

abbrev connect_amf : Amf
connect_amf = amf_of (text (codes "connect") ∷ number 1 ∷ object connect_object ∷ [])

abbrev empty_amf : Amf
empty_amf = amf_of []

-- A connection that nothing has been sent on.
abbrev unheard : Connection
unheard = record idle { encode_hdr_pool = []; local_chunk_size = 4096; remote_chunk_size = 128 }

abbrev caller : ServerConn
caller = record {
  number = 7;
  connection = unheard;
  connect_info = no_connect_info;
  play_info = record no_play_info { stream = codes "s"; client_type = 1 };
  meta = no_meta_data;
  sess = none;
  handshake_status = 0;
  handshake_err = none;
}

abbrev command : Chunk
command = new_chunk 3 4 msg_amf0_command_message 0 (9 ∷ 9 ∷ 9 ∷ 9 ∷ [])

command-IsReceivable : IsReceivable command unheard
command-IsReceivable = record {
  fits = record {
    short_timestamp = omega arith;
    length_fits = omega arith;
    type_fits = omega arith;
    stream_fits = omega arith;
  };
  csid_lo = omega arith;
  csid_hi = omega arith;
  whole = refl;
  not_empty = omega arith;
  chunk_size = omega arith;
  idle = idle_stream 3;
}

caller-CanAnswer : CanAnswer (arrived command unheard) unheard
caller-CanAnswer = record {
  csid_lo = omega arith;
  csid_hi = omega arith;
  chunk_size = omega arith;
  ready = tt;
  nothing_queued = refl;
}

serve_message-connect_example :
    (sc' : ServerConn) × (serve_message connect_amf (sent_to caller command (5 ∷ [])) no_sessions
      ≡ ok (done (sc', no_sessions)))
    × Connected caller command
        (5 ∷ [])
        (1 ∷ 2 ∷ [])
        (read_connect_object (λ x. x) connect_object no_connect_info)
        sc'
unfolding read_connect_object wire header_bytes basic_bytes message_bytes uint_as_bytes
    uint_bytes_big uint_bytes_little chunks
serve_message-connect_example =
    serve_message-connect connect_amf command (5 ∷ []) caller no_sessions 1 connect_object
      (1 ∷ 2 ∷ []) command-IsReceivable refl refl caller-CanAnswer refl (λ e. cc) (λ e. cc) refl
      (omega arith) (omega arith) (omega arith)

serve_message-undecoded_example :
    serve_message empty_amf (sent_to caller command []) no_sessions ≡ panic
serve_message-undecoded_example =
    serve_message-undecoded empty_amf command [] caller no_sessions command-IsReceivable refl refl

connect_reply-received_example :
    (cl₁ : ServerConn) × (cl₂ : ServerConn) × (cl₃ : ServerConn) × (c₄ : Connection) × (s : Stream)
    × (serve_message empty_amf
          (with_connection caller (
            fed unheard (
              wires 4096 (connect_chunks (arrived command unheard) 2500000 4096 (1 ∷ 2 ∷ []))
              ++ [])))
          no_sessions
        ≡ ok (done (cl₁, no_sessions)))
    × (serve_message empty_amf cl₁ no_sessions ≡ ok (done (cl₂, no_sessions)))
    × (serve_message empty_amf cl₂ no_sessions ≡ ok (done (cl₃, no_sessions)))
    × (cl₃.connection.remote_chunk_size ≡ 4096)
    × (recv_integral_message cl₃.connection ≡ ok ((3, s), c₄))
    × (s.message_type_id ≡ msg_amf0_command_message)
    × (s.chunk_data ≡ 1 ∷ 2 ∷ [])
connect_reply-received_example =
    connect_reply-received empty_amf no_sessions (arrived command unheard) caller 2500000 4096
      (1 ∷ 2 ∷ []) []
      (record { control = idle_stream 2; command = idle_stream 3; holds = omega arith })
      (omega arith) (omega arith) (omega arith) (omega arith) (omega arith) (omega arith)
      (omega arith)

abbrev encoded : Key × Key → List ℕ
encoded e = 1 ∷ 2 ∷ []

handle_play_command_message-wires_example :
    (pool : List Slice) × (handle_play_command_message empty_amf
        (arrived command unheard)
        (number 5 ∷ Value.null ∷ text (codes "s") ∷ [])
        caller
      ≡ ok (record caller {
        connection =
            handed
              (record unheard { transaction_id = 5 })
              (wires 4096 (play_chunks (arrived command unheard) encoded))
              pool;
        play_info = record no_play_info { client_type = 2; stream = codes "s" };
      }))
unfolding wire header_bytes basic_bytes message_bytes uint_as_bytes uint_bytes_big uint_bytes_little
    chunks
handle_play_command_message-wires_example =
    handle_play_command_message-wires empty_amf encoded (arrived command unheard) caller
      caller-CanAnswer 5 (codes "s") (λ e. cc)
      (
        (refl, omega arith, omega arith),
        (
          (refl, omega arith, omega arith),
          ((refl, omega arith, omega arith), ((refl, omega arith, omega arith), tt)),
        ),
      )
      (omega arith)

empty_amf-IsRegular : IsRegular empty_amf
empty_amf-IsRegular = record { decodes = λ bytes. returns tt; encodes = λ vs. returns tt }

-- A publisher of a stream, beside a session of another key.
abbrev publisher : ServerConn
publisher = record caller {
  connect_info = record no_connect_info { app = codes "live"; tc_url = codes "rtmp://h/live" };
}

abbrev here : World
here = record {
  amf = empty_amf;
  reform = ok;
  hmac = fives;
  random = sevens;
  slow_handshake = false;
  late = λ n. false;
  address = codes "h:1";
}

here-IsOrdinary : IsOrdinary here
here-IsOrdinary = record {
  regular = empty_amf-IsRegular;
  reforms = λ bytes. returns tt;
  digest_size = fives_size;
  fills = sevens_size;
}

serve-Leftover_example : Finishes (Leftover one) (serve here publisher one)
serve-Leftover_example = serve-Leftover here here-IsOrdinary publisher one tt

handshake-again_example : Finishes (IsKept here) (handshake here caller)
handshake-again_example = handshake-again here caller here-IsOrdinary

gen_stream_key_unique_example : (codes "a" ≡ codes "a") × (codes "b/c" ≡ codes "b/c")
gen_stream_key_unique_example =
    gen_stream_key_unique (codes "h") (codes "a") (codes "b/c") (codes "a") (codes "b/c")
      (omega arith, tt) (omega arith, tt) refl

abbrev empty_config : Config
empty_config = record {
  addr = [];
  read_buf_size = 0;
  local_chunk_size = 100;
  handshake_timeout = 0;
  playor_publish_timeout = 0;
}

load_options-accept_example :
    Finishes
      (λ (r : Config × Broker).
        IsComplete r.0
        × ((number : ℕ) (c : Connection)
            → (sc : ServerConn) × (accept r.0 number c ≡ ok sc) × IsFresh r.0 sc))
      (load_options (ok (codes "/etc")) (λ path. ok empty_config) (λ config. ok tt) [])
load_options-accept_example =
    load_options-accept (ok (codes "/etc")) (λ path. ok empty_config) (λ config. ok tt) []
      (returns tt) (λ path. returns tt) (λ config. returns tt)
