-- ===== src/Server/Player.antt =====
-- pkg/rtmp/server/player.go: sending packets to one player, and the timestamps that it is sent.
-- What the AMF library makes of a metadata packet is an argument, `reform`; so is the time that has
-- passed since the last flush.
pub mod Timestamps
pub mod Sending
pub mod Queue
pub mod Mutex
use fastlive.Base.{
  ℕ, zero, suc, ◌+◌, ◌-◌, ◌*◌, ◌/◌, ◌%◌, ◌^◌, Bool, true, false, List, [], ◌∷◌, ◌++◌,
}
use fastlive.Base.{ltb, leb, ◌==◌, ◌||◌, if◌then◌else◌, length}
use fastlive.Base.{Outcome, ok, err, panic, stuck, ◌>>=◌, flush_mismatch}
use fastlive.Base.{Option, none, some}
use fastlive.Chunk.{Chunk, msg_audio_message, msg_video_message, msg_amf0_data_message}
use fastlive.Connection.{Connection, flush}
use fastlive.Connection.Send.{send_integral_message}
use fastlive.Av.{Packet, audio_type, video_type, meta_data}

pub record Player : Type 0 where
  pub conn : Connection
  pub packet_buf_size : ℕ
  -- the channel's contents, oldest first
  pub packet_buffer : List Packet
  pub buffer_closed : ℕ
  -- close has been called on the channel
  pub channel_closed : Bool
  pub basic_timestamp : ℕ
  pub basic_audio_timestamp : ℕ
  pub basic_video_timestamp : ℕ
  pub msg_count : ℕ
  pub bytes_count : ℕ
  -- milliseconds
  pub mw_wait_time : ℕ

-- player.loadOptions and the zero values: the sizes given, or the defaults.
unfoldable pub new_player : Connection → ℕ → ℕ → Player
new_player c size wait = record {
  conn = c;
  packet_buf_size = if size == 0 then 10 else size;
  packet_buffer = [];
  buffer_closed = 0;
  channel_closed = false;
  basic_timestamp = 0;
  basic_audio_timestamp = 0;
  basic_video_timestamp = 0;
  msg_count = 0;
  bytes_count = 0;
  mw_wait_time = if wait == 0 then 350 else wait;
}

-- updateBaseTimestamp
unfoldable pub update_base_timestamp : ℕ → ℕ → Player → Player
update_base_timestamp type_id timestamp p =
    let audio = if type_id == msg_audio_message then timestamp else p.basic_audio_timestamp in
    let video = if type_id == msg_video_message then timestamp else p.basic_video_timestamp in
    record p {
      basic_audio_timestamp = audio;
      basic_video_timestamp = video;
      basic_timestamp = if ltb video audio then audio else video;
    }

-- The chunk stream and the message type of a packet.
unfoldable pub packet_csid : ℕ → ℕ
packet_csid typ =
    if typ == audio_type
    then 4
    else if typ == video_type
    then 6
    else if typ == meta_data
    then 6
    else 0

unfoldable pub packet_type_id : ℕ → ℕ
packet_type_id typ =
    if typ == audio_type
    then msg_audio_message
    else if typ == video_type
    then msg_video_message
    else if typ == meta_data
    then msg_amf0_data_message
    else 0

-- The timestamp that a packet is sent with: 40 ms after the base if its own is before that.
unfoldable pub packet_timestamp : Packet → Player → ℕ
packet_timestamp packet p =
    if ltb packet.timestamp p.basic_timestamp
    then (p.basic_timestamp + 40) % 2 ^ 32
    else packet.timestamp

-- The message that sendAvPacket makes of a packet, with the data `bytes`.
unfoldable pub packet_message : Packet → List ℕ → Player → Chunk
packet_message packet bytes p = record {
  header = record {
    basic_header = record { fmt = 0; csid = packet_csid packet.packet_type };
    message_header = record {
      timestamp = packet_timestamp packet p;
      message_length = length bytes % 2 ^ 32;
      message_type_id = packet_type_id packet.packet_type;
      message_stream_id = packet.stream_id;
    };
    extended_timestamp = 0;
  };
  chunk_data = bytes;
}

-- sendAvPacket only queues the message.
unfoldable pub send_av_packet : (List ℕ → Outcome (List ℕ)) → Packet → Player → Outcome Player
send_av_packet reform packet p = do
  bytes ← if packet.packet_type == meta_data then reform packet.bytes else ok packet.bytes
  let msg = packet_message packet bytes p
  let p = update_base_timestamp msg.message_type_id msg.timestamp p
  (nw, c) ← send_integral_message msg p.conn
  ok (record p { conn = c; bytes_count = p.bytes_count + nw; msg_count = p.msg_count + 1 })

-- flushAvPacket, `elapsed` milliseconds after the last flush.
unfoldable pub flush_av_packet : ℕ → Player → Outcome Player
flush_av_packet elapsed p = if p.msg_count == 0 || ltb elapsed p.mw_wait_time then ok p else (do
  (nf, c) ← flush p.conn
  if nf == p.bytes_count
      then ok (record p { conn = c; msg_count = 0; bytes_count = 0 })
      else err flush_mismatch)

-- A step of a goroutine that may have to wait.
pub data Progress {ℓ} (A : Type ℓ) : Type ℓ where
  done : A → Progress A
  blocked : Progress A

-- buffPackets: a send on a closed channel panics, one into a full channel waits. (The mutex is
-- held meanwhile.)
unfoldable pub buff_packets : Packet → Player → Outcome (Progress Player)
buff_packets packet p =
    if p.buffer_closed == 1
    then ok (done p)
    else if p.channel_closed
    then panic
    else if leb p.packet_buf_size (length p.packet_buffer)
    then ok blocked
    else ok (done (record p { packet_buffer = p.packet_buffer ++ (packet ∷ []) }))

-- closePacketBuffer: closing a closed channel panics.
unfoldable pub close_packet_buffer : Player → Outcome Player
close_packet_buffer p =
    if p.buffer_closed == 1
    then ok p
    else if p.channel_closed
    then panic
    else ok (record p { buffer_closed = (p.buffer_closed + 1) % 2 ^ 32; channel_closed = true })

-- The receive in doPlaying: the oldest packet, or none from a closed channel.
unfoldable pub next_packet : Player → Progress (Option Packet × Player)
next_packet p = elim p.packet_buffer [
  | packet ∷ rest ↦ done (some packet, record p { packet_buffer = rest })
  | [] ↦ if p.channel_closed then done (none, p) else blocked
]
