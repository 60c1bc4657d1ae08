-- ===== src/Server/Session.antt =====
-- pkg/rtmp/server/session.go: one published stream, its players and the packets that it keeps for
-- those who come later. The players are in a fixed order where sync.Map promises none; the
-- publisher is the number of its connection.
pub mod FanOut
pub mod Ends
use fastlive.Base.{ℕ, List, [], ◌∷◌, Bool, ◌==◌, ◌&&◌, if◌then◌else◌, length}
use fastlive.Base.{Option, none, some, Outcome, ok, err, panic, ◌>>=◌, field_required}
use fastlive.Chunk.{Stream, msg_audio_message, msg_video_message}
use fastlive.Av.{Packet, audio_type, video_type, meta_data, decode_header, is_sequence_header}
use fastlive.Server.Table.{Key, load, put, delete}
use fastlive.Server.Player.{Player, Progress, done, blocked, buff_packets, close_packet_buffer}

-- The goroutine checkOffline: before its token, during the 30 seconds, and afterwards.
pub data Watch : Type 0 where
  waiting timing finished : Watch

pub record Session : Type 0 where
  pub id : Key
  pub vhost : Key
  pub app_name : Key
  pub stream_name : Key
  pub stream_key : Key
  pub publisher : Option ℕ
  pub players : List (Key × Player)
  -- the tokens in the channel, which holds one
  pub offline : ℕ
  pub watch : Watch
  pub meta_data : Option Packet
  pub audio_seq_header : Option Packet
  pub video_seq_header : Option Packet

abbrev is_empty : Key → Bool
is_empty k = length k == 0

-- newSession, which starts checkOffline. (Its broker is given.)
unfoldable pub new_session : Key → Key → Key → Key → ℕ → Key → Outcome Session
new_session id vhost app_name stream_name publisher stream_key =
    if is_empty id
    then err field_required
    else if is_empty vhost
    then err field_required
    else if is_empty app_name
    then err field_required
    else if is_empty stream_name
    then err field_required
    else if is_empty stream_key
    then err field_required
    else ok (record {
      id = id;
      vhost = vhost;
      app_name = app_name;
      stream_name = stream_name;
      stream_key = stream_key;
      publisher = some publisher;
      players = [];
      offline = 0;
      watch = waiting;
      meta_data = none;
      audio_seq_header = none;
      video_seq_header = none;
    })

-- The packet that is made of a message.
unfoldable pub av_packet : Stream → ℕ → Packet
av_packet msg packet_type = record {
  packet_header = none;
  bytes = msg.chunk_data;
  timestamp = msg.timestamp;
  stream_id = msg.message_stream_id;
  packet_type = packet_type;
}

-- The packet type of a message type in onRecvAVMessage.
unfoldable pub media_type : ℕ → ℕ
media_type type_id =
    if type_id == msg_audio_message
    then audio_type
    else if type_id == msg_video_message
    then video_type
    else 0

-- The switch of onRecvAVMessage: sequence headers are kept. A video packet's header is asserted to
-- be one.
unfoldable pub keep_header : Packet → Session → Outcome Session
keep_header packet s =
    if packet.packet_type == audio_type
    then elim packet.packet_header [
      | some tag ↦ ok (
          if tag.sound_format == 10 && tag.aac_packet_type == 0
          then record s { audio_seq_header = some packet }
          else s)
      | none ↦ ok s
    ]
    else if packet.packet_type == video_type
    then elim packet.packet_header [
      | some tag ↦
          ok (if is_sequence_header tag then record s { video_seq_header = some packet } else s)
      | none ↦ panic
    ]
    else ok s

-- fanOut: the packet goes to one player after the other; whoever waits for one keeps the rest
-- waiting.
unfoldable pub fan_out : Packet → List (Key × Player) → Outcome (Progress (List (Key × Player)))
fan_out packet [] = ok (done [])
fan_out packet ((k, p) ∷ players) = do
  r ← buff_packets packet p
  elim r [
    | blocked ↦ ok blocked
    | done p ↦ (do
      rest ← fan_out packet players
      ok (elim rest [ blocked ↦ blocked | done players ↦ done ((k, p) ∷ players) ]))
  ]

abbrev with_players : Session → Progress (List (Key × Player)) → Progress Session
with_players s (done players) = done (record s { players = players })
with_players s blocked = blocked

-- onRecvAVMessage
unfoldable pub on_recv_av_message : Stream → ℕ → Session → Outcome (Progress Session)
on_recv_av_message msg type_id s = do
  packet ← decode_header (av_packet msg (media_type type_id))
  s ← keep_header packet s
  r ← fan_out packet s.players
  ok (with_players s r)

-- onRecvDataMessage, given the message as the publisher's handleDataMessage leaves it.
unfoldable pub on_recv_data_message : Outcome Stream → Session → Outcome (Progress Session)
on_recv_data_message handled s = elim s.publisher [
  | none ↦ ok (done s)
  | some _ ↦ (do
    msg ← handled
    let packet = av_packet msg meta_data
    r ← fan_out packet s.players
    ok (with_players (record s { meta_data = some packet }) r))
]

-- addPlayer, under the player's remote address.
unfoldable pub add_player : Key → Player → Session → Session
add_player address p s = record s { players = put address p s.players }

-- The players that delPlayer is called on by checkOffline: all of them are closed and removed.
unfoldable pub close_players : List (Key × Player) → Outcome (Unit {0})
close_players [] = ok tt
close_players ((k, p) ∷ players) = do _ ← close_packet_buffer p; close_players players

-- The player at an address is closed and removed.
unfoldable pub del_player : Key → Session → Outcome Session
del_player address s = elim (load address s.players) [
  | none ↦ ok s
  | some p ↦ (do _ ← close_packet_buffer p; ok (record s { players = delete address s.players }))
]
