-- ===== src/Server/Session/FanOut.antt =====
-- What the players of a session get of a packet, and the sequence headers that it keeps.
use fastlive.Base.{ℕ, ◌<◌, ◌≤◌, ◌≡◌, refl, ap, ◌∙◌, arith, List, [], ◌∷◌, ◌++◌, length, All}
use fastlive.Base.{false, if◌then◌else◌, ◌==◌, ◌⊎◌, some, ok}
use fastlive.Chunk.{Stream, msg_audio_message}
use fastlive.Av.{Packet, MediaTag, zero_tag, audio_type, decode_header, decode_media_tag_header}
use fastlive.Av.Tag.{aac_bytes, decode_media_tag_header-aac}
use fastlive.Server.Table.{Key}
use fastlive.Server.Player.{Player, done, blocked, buff_packets}
use fastlive.Server.Session.{
  Session, av_packet, media_type, keep_header, fan_out, on_recv_av_message,
}

-- A player whose queue is closed, or open with room for a packet.
abbrev pub CanTake : Key × Player → Type 0
CanTake (_, p) =
    (p.buffer_closed ≡ 1)
    ⊎ ((p.buffer_closed ≡ 0)
        × (p.channel_closed ≡ false)
        × (length p.packet_buffer < p.packet_buf_size))

-- The packet behind the others of an open queue; a closed one stays as it is.
abbrev pub offered : Packet → Player → Player
offered packet p =
    if p.buffer_closed == 1
    then p
    else record p { packet_buffer = p.packet_buffer ++ (packet ∷ []) }

abbrev pub all_offered : Packet → List (Key × Player) → List (Key × Player)
all_offered packet [] = []
all_offered packet ((k, p) ∷ players) = (k, offered packet p) ∷ all_offered packet players

buff_packets-offered :
    (packet : Packet) (k : Key) (p : Player)
    → CanTake (k, p)
    → buff_packets packet p ≡ ok (done (offered packet p))
unfolding buff_packets
buff_packets-offered packet k p h = ground (arith, h)

-- A packet is put behind the others in every open queue of a session, if each of those has room.
pub fan_out-offered :
    (packet : Packet) (players : List (Key × Player))
    → All CanTake players
    → fan_out packet players ≡ ok (done (all_offered packet players))
unfolding fan_out
fan_out-offered packet [] h = refl
fan_out-offered packet ((k, p) ∷ players) (h, hs) =
    rw (buff_packets-offered packet k p h, fan_out-offered packet players hs) refl

-- An audio message that carries an AAC sequence header is kept as the session's audio sequence
-- header and goes to every open queue, if each of those has room; nothing else of the session
-- changes.
pub on_recv_av_message-aac :
    (msg : Stream) (s : Session) (rate size channels : ℕ) (payload : List ℕ)
    → msg.chunk_data ≡ aac_bytes rate size channels 0 ++ payload
    → rate < 4
    → size < 2
    → channels < 2
    → All CanTake s.players
    → (packet : Packet) × (on_recv_av_message msg msg_audio_message s
        ≡ ok (
            done (record s {
              audio_seq_header = some packet;
              players = all_offered packet s.players;
            })))
      × (packet.bytes ≡ msg.chunk_data)
      × (packet.timestamp ≡ msg.timestamp)
unfolding on_recv_av_message media_type av_packet keep_header decode_header
on_recv_av_message-aac msg s rate size channels payload e hr hs hc room =
    (packet, rw (tagged, fan_out-offered packet s.players room) refl, refl, refl)
  where
    tag : MediaTag
    tag = record zero_tag {
      sound_format = 10;
      sound_rate = rate;
      sound_size = size;
      sound_type = channels;
      aac_packet_type = 0;
    }

    tagged : decode_media_tag_header zero_tag msg.chunk_data audio_type ≡ ok (2, tag)
    tagged =
        ap (λ b. decode_media_tag_header zero_tag b audio_type) e
        ∙ decode_media_tag_header-aac zero_tag rate size channels 0 payload hr hs hc

    packet : Packet
    packet = record (av_packet msg audio_type) { packet_header = some tag }

-- A queue that is open and full.
abbrev pub IsFull : Player → Type 0
IsFull p =
    (p.buffer_closed ≡ 0)
    × (p.channel_closed ≡ false)
    × (p.packet_buf_size ≤ length p.packet_buffer)

buff_packets-blocked :
    (packet : Packet) (p : Player) → IsFull p → buff_packets packet p ≡ ok blocked
unfolding buff_packets
buff_packets-blocked packet p h = ground (arith, h)

-- One open queue that is full stops the publisher, whoever is behind it: of players that can take a
-- packet, one that cannot, and any others, the fan-out waits, and no later player is offered the
-- packet.
pub fan_out-blocked :
    (packet : Packet) (front rest : List (Key × Player)) (k : Key) (p : Player)
    → All CanTake front
    → IsFull p
    → fan_out packet (front ++ ((k, p) ∷ rest)) ≡ ok blocked
unfolding fan_out
fan_out-blocked packet [] rest k p h full = rw (buff_packets-blocked packet p full) refl
fan_out-blocked packet ((j, q) ∷ front) rest k p (h, hs) full =
    rw (buff_packets-offered packet j q h, fan_out-blocked packet front rest k p hs full) refl
