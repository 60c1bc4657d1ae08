-- ===== src/Tests/Sessions.antt =====
-- A session with one player, and an AAC sequence header.
use fastlive.Base.{[], ◌∷◌, ◌++◌, ok, some, refl, inr, arith, ◌≡◌, true}
use fastlive.Chunk.{Stream, fresh_stream, with_data, msg_audio_message}
use fastlive.Av.{Packet}
use fastlive.Av.Tag.{aac_bytes}
use fastlive.Server.Player.{done}
use fastlive.Server.Session.{Session, fan_out, on_recv_av_message}
use fastlive.Server.Session.FanOut.{all_offered, fan_out-offered, on_recv_av_message-aac}
use fastlive.Tests.Players.{one_waiting, picture}
use fastlive.Tests.Registry.{published}

abbrev watched : Session
watched = record published { players = (9 ∷ [], one_waiting) ∷ [] }

abbrev audio : Stream
audio = with_data (aac_bytes 3 1 1 0 ++ (18 ∷ 16 ∷ [])) (fresh_stream 0 4 true)

fan_out-offered_example :
    fan_out picture watched.players ≡ ok (done (all_offered picture watched.players))
fan_out-offered_example =
    fan_out-offered picture watched.players (inr (refl, refl, omega arith), tt)

on_recv_av_message-aac_example :
    (packet : Packet) × (on_recv_av_message audio msg_audio_message watched
      ≡ ok (
          done (record watched {
            audio_seq_header = some packet;
            players = all_offered packet watched.players;
          })))
    × (packet.bytes ≡ audio.chunk_data)
    × (packet.timestamp ≡ audio.timestamp)
on_recv_av_message-aac_example =
    on_recv_av_message-aac audio watched 3 1 1 (18 ∷ 16 ∷ []) refl (omega arith) (omega arith)
      (omega arith) (inr (refl, refl, omega arith), tt)
