-- ===== src/Tests/Players.antt =====
-- A player that is sent a late audio packet after a video packet.
use fastlive.Base.{
  ℕ, List, [], ◌∷◌, ◌++◌, ok, none, Outcome, After, ◌≡◌, refl, inl, inr, arith, All, ◌+◌, false,
}
use fastlive.Connection.{contents}
use fastlive.Connection.Send.Wire.{wire}
use fastlive.Connection.Send.Refine.{Ready}
use fastlive.Av.{Packet, audio_type, video_type}
use fastlive.Server.Player.{Player, new_player, packet_message, send_av_packet, flush_av_packet}
use fastlive.Server.Player.Timestamps.{Ascending, IsBased, play_packets, play_packets-Ascending}
use fastlive.Server.Player.Sending.{IsBalanced, Takes, send_av_packet-wire, flush_av_packet-all}
use fastlive.Server.Player.{buff_packets, close_packet_buffer}
use fastlive.Server.Player.Queue.{
  Queue, fresh, buffer, shut, IsOrderly, Queue-IsOrderly, Queue-no_panic,
}
use fastlive.Base.{true, panic, ◌≢◌}
use fastlive.Tests.Connections.{idle, pool-Ready}

abbrev pub picture : Packet
picture = record {
  packet_header = none;
  bytes = 23 ∷ 1 ∷ 0 ∷ 0 ∷ 0 ∷ [];
  timestamp = 5000;
  stream_id = 1;
  packet_type = video_type;
}

abbrev late : Packet
late = record picture { timestamp = 4000; packet_type = audio_type }

abbrev keep : List ℕ → Outcome (List ℕ)
keep = ok

play_packets-Ascending_example :
    After
      (λ r. Ascending 0 r.0)
      (play_packets keep ((0, picture) ∷ (10, late) ∷ []) (new_player idle 150 350))
unfolding new_player IsBased
play_packets-Ascending_example =
    play_packets-Ascending keep ((0, picture) ∷ (10, late) ∷ []) (new_player idle 150 350) refl
      (omega arith) ((inr refl, omega arith), ((inl refl, omega arith), tt))

picture-Takes : Takes (new_player idle 150 350) picture
unfolding new_player
picture-Takes = record {
  media = inr refl;
  not_empty = omega arith;
  bound = omega arith;
  chunk_size = omega arith;
  ready = pool-Ready;
}

send_av_packet-wire_example :
    (q : Player) × (send_av_packet keep picture (new_player idle 150 350) ≡ ok q)
    × (contents q.conn.write_buf
        ≡ [] ++ wire (packet_message picture picture.bytes (new_player idle 150 350)) 2)
    × (q.msg_count ≡ 0 + 1)
    × IsBalanced q
    × All (Ready 1) q.conn.encode_hdr_pool
unfolding new_player IsBalanced
send_av_packet-wire_example =
    send_av_packet-wire keep picture (new_player idle 150 350) picture-Takes refl

abbrev waiting : Player
waiting = record {
  conn = record idle { write_buf = record { arr = 1 ∷ 2 ∷ 3 ∷ []; len = 2 } ∷ [] };
  packet_buf_size = 150;
  packet_buffer = [];
  buffer_closed = 0;
  channel_closed = false;
  basic_timestamp = 0;
  basic_audio_timestamp = 0;
  basic_video_timestamp = 0;
  msg_count = 1;
  bytes_count = 2;
  mw_wait_time = 350;
}

flush_av_packet-all_example :
    (q : Player) × (flush_av_packet 400 waiting ≡ ok q)
    × (q.conn.sent ≡ waiting.conn.sent ++ contents waiting.conn.write_buf)
    × (q.conn.write_buf ≡ [])
    × (q.msg_count ≡ 0)
    × IsBalanced q
unfolding IsBalanced
flush_av_packet-all_example =
    flush_av_packet-all 400 waiting refl (omega arith) (omega arith) (omega arith) (omega arith)

abbrev pub one_waiting : Player
one_waiting = record waiting {
  conn = idle;
  msg_count = 0;
  bytes_count = 0;
  packet_buffer = picture ∷ [];
}

one_waiting-Queue : Queue (picture ∷ []) [] one_waiting
unfolding new_player buff_packets
one_waiting-Queue = buffer picture (fresh idle 150 350) refl

abbrev one_shut : Player
one_shut = record one_waiting { buffer_closed = 1; channel_closed = true }

one_shut-Queue : Queue (picture ∷ []) [] one_shut
unfolding close_packet_buffer
one_shut-Queue = shut one_waiting-Queue refl

Queue-IsOrderly_example : IsOrderly (picture ∷ []) [] one_shut
Queue-IsOrderly_example = Queue-IsOrderly one_shut-Queue

Queue-no_panic_example :
    (buff_packets late one_shut ≢ panic) × (close_packet_buffer one_shut ≢ panic)
Queue-no_panic_example = Queue-no_panic late one_shut-Queue
