-- ===== src/Server/Player/Timestamps.antt =====
-- The timestamps of the messages that a player is sent.
use fastlive.Base.{ℕ, ◌+◌, ◌*◌, ◌^◌, ◌≤◌, ◌<◌, ◌≡◌, refl, arith, max}
use fastlive.Base.{List, [], ◌∷◌, length, All, ◌⊎◌, ltb, ◌==◌}
use fastlive.Base.{
  Outcome, ok, err, flush_mismatch, ◌>>=◌, After, After-bind, After-then, After-if, ◌||◌,
}
use fastlive.Base.{if◌then◌else◌}
use fastlive.Connection.{Connection, flush}
use fastlive.Connection.Send.{send_integral_message}
use fastlive.Av.{Packet, audio_type, video_type, meta_data}
use fastlive.Server.Player.{
  Player, update_base_timestamp, packet_timestamp, packet_type_id, packet_message, send_av_packet,
  flush_av_packet,
}

-- The base is the later one of the audio's and the video's.
unfoldable pub IsBased : Player → Type 0
IsBased p = p.basic_timestamp ≡ max p.basic_audio_timestamp p.basic_video_timestamp

abbrev pub IsMedia : Packet → Type 0
IsMedia packet = (packet.packet_type ≡ audio_type) ⊎ (packet.packet_type ≡ video_type)

-- One packet moves the base forwards, to its own timestamp at least.
pub record Stamped (packet : Packet) (p q : Player) : Type 0 where
  pub based : IsBased q
  pub lower : p.basic_timestamp ≤ packet_timestamp packet p
  pub upper : packet_timestamp packet p ≤ q.basic_timestamp
  pub near : q.basic_timestamp ≤ max (p.basic_timestamp + 40) packet.timestamp

update_base_timestamp-Stamped :
    (packet : Packet) (p : Player)
    → IsBased p
    → IsMedia packet
    → p.basic_timestamp + 40 < 2 ^ 32
    → Stamped packet p
        (update_base_timestamp (packet_type_id packet.packet_type) (packet_timestamp packet p) p)
unfolding update_base_timestamp packet_type_id packet_timestamp IsBased
update_base_timestamp-Stamped packet p b m h = record {
  based = ground arith;
  lower = ground arith;
  upper = ground (arith, m, b);
  near = ground (arith, m, b);
}

-- A media packet that is sent is sent with a timestamp between the player's base before and its
-- base afterwards, which is at most the packet's own or 40 ms after the base before.
pub send_av_packet-Stamped :
    (reform : List ℕ → Outcome (List ℕ)) (packet : Packet) (p : Player)
    → IsBased p
    → IsMedia packet
    → p.basic_timestamp + 40 < 2 ^ 32
    → After (Stamped packet p) (send_av_packet reform packet p)
unfolding send_av_packet packet_message update_base_timestamp IsBased
send_av_packet-Stamped reform packet p b m h =
    After-bind (Stamped packet p)
      (if packet.packet_type == meta_data then reform packet.bytes else ok packet.bytes) _
      (λ bytes.
        After-bind (Stamped packet p) (send_integral_message (packet_message packet bytes p) p.conn)
          _ (λ (nw, c). charged c nw))
  where
    stamped :
        Stamped packet p
          (update_base_timestamp (packet_type_id packet.packet_type) (packet_timestamp packet p) p)
    stamped = update_base_timestamp-Stamped packet p b m h

    charged :
        (c : Connection) (nw : ℕ)
        → Stamped packet p
            (record (update_base_timestamp
              (packet_type_id packet.packet_type)
              (packet_timestamp packet p)
              p) { conn = c; bytes_count = p.bytes_count + nw; msg_count = p.msg_count + 1 })
    charged c nw = record {
      based = stamped.based;
      lower = stamped.lower;
      upper = stamped.upper;
      near = stamped.near;
    }

-- doPlaying's loop on packets that arrive with the given delays: each round flushes, then sends.
-- The result also lists the timestamps that the messages are given.
unfoldable pub play_packets :
    (List ℕ → Outcome (List ℕ)) → List (ℕ × Packet) → Player → Outcome (List ℕ × Player)
play_packets reform [] p = ok ([], p)
play_packets reform ((elapsed, packet) ∷ rounds) p = do
  p ← flush_av_packet elapsed p
  q ← send_av_packet reform packet p
  (stamps, q) ← play_packets reform rounds q
  ok (packet_timestamp packet p ∷ stamps, q)

-- A list in ascending order, from a bound on.
abbrev pub Ascending : ℕ → List ℕ → Type 0
Ascending n [] = Unit {0}
Ascending n (m ∷ ms) = (n ≤ m) × Ascending m ms

Ascending-lower : (n m : ℕ) (ms : List ℕ) → n ≤ m → Ascending m ms → Ascending n ms
Ascending-lower n m [] h a = tt
Ascending-lower n m (k ∷ ms) h (a, above) = (omega arith, above)

-- A media packet whose timestamp leaves room for `k` steps of 40 ms below 2 ^ 32.
abbrev pub IsTimely : ℕ → ℕ × Packet → Type 0
IsTimely k (_, packet) = IsMedia packet × (packet.timestamp + 40 * k < 2 ^ 32)

SameBase : Player → Player → Type 0
SameBase p q = (q.basic_timestamp ≡ p.basic_timestamp) × IsBased q

flush_av_packet-SameBase :
    (elapsed : ℕ) (p : Player) → IsBased p → After (SameBase p) (flush_av_packet elapsed p)
unfolding flush_av_packet IsBased SameBase
flush_av_packet-SameBase elapsed p b =
    After-if (SameBase p) (p.msg_count == 0 || ltb elapsed p.mw_wait_time) (ok p) _ (refl, b)
      (After-bind (SameBase p) (flush p.conn) _ (λ (nf, c).
        After-if (SameBase p) (nf == p.bytes_count) _ (err flush_mismatch) (refl, b) tt))

rounds_in_order :
    (reform : List ℕ → Outcome (List ℕ)) (rounds : List (ℕ × Packet)) (k : ℕ) (p : Player)
    → IsBased p
    → length rounds ≤ k
    → p.basic_timestamp + 40 * length rounds < 2 ^ 32
    → All (IsTimely k) rounds
    → After (λ r. Ascending p.basic_timestamp r.0) (play_packets reform rounds p)
unfolding play_packets SameBase
rounds_in_order reform [] k p b le h timely = tt
rounds_in_order reform ((elapsed, packet) ∷ rounds) k p b le h ((media, room), timely) =
    After-then (SameBase p) (λ r. Ascending p.basic_timestamp r.0) (flush_av_packet elapsed p) _
      (flush_av_packet-SameBase elapsed p b)
      (λ p₁ same.
        After-then (Stamped packet p₁) (λ r. Ascending p.basic_timestamp r.0)
          (send_av_packet reform packet p₁) _
          (send_av_packet-Stamped reform packet p₁ same.1 media (omega (arith, same, h)))
          (λ q st.
            After-then (λ r. Ascending q.basic_timestamp r.0) (λ r. Ascending p.basic_timestamp r.0)
              (play_packets reform rounds q) _
              (rounds_in_order reform rounds k q st.based (omega (arith, le))
                (omega (arith, same, h, room, le, st)) timely)
              (λ (stamps, q').
                λ up. (omega (arith, same, st), Ascending-lower _ _ stamps st.upper up))))

-- The messages of a player that is sent audio and video packets go out in ascending order of their
-- timestamps, whatever order the packets' own are in, as long as each of these, and the player's
-- base at the start, is 40 ms for every packet below 2 ^ 32, so that no addition wraps round. (A run
-- that a failing socket or conversion cuts short has no result, and nothing is said of it.)
pub play_packets-Ascending :
    (reform : List ℕ → Outcome (List ℕ)) (rounds : List (ℕ × Packet)) (p : Player)
    → IsBased p
    → p.basic_timestamp + 40 * length rounds < 2 ^ 32
    → All (IsTimely (length rounds)) rounds
    → After (λ r. Ascending p.basic_timestamp r.0) (play_packets reform rounds p)
play_packets-Ascending reform rounds p b h timely =
    rounds_in_order reform rounds (length rounds) p b (omega arith) h timely
