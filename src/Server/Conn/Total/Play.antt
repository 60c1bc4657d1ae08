-- ===== src/Server/Conn/Total/Play.antt =====
-- A player that joins: every step ends, and what the steps leave of the registry.
use fastlive.Base.{ℕ, ◌≡◌, refl, List, inl, inr, Option, none, some, Option-cases, ◌==◌}
use fastlive.Base.{
  Outcome, Key, Ends, Finishes, returns, errs, breaks, Finishes-then, Finishes-if, get_elem?,
}
use fastlive.Connection.{Connection}
use fastlive.Connection.Send.Keeps.{Leaves, send_integral_message-Leaves}
use fastlive.Connection.Steps.{gives, fails, panics}
use fastlive.Av.{Packet, meta_data}
use fastlive.Server.Table.{load}
use fastlive.Server.Player.{
  Player, new_player, send_av_packet, packet_message, update_base_timestamp,
}
use fastlive.Server.Session.{Session, add_player, del_player}
use fastlive.Server.Session.Ends.{close_packet_buffer-Ends}
use fastlive.Server.Broker.{Broker, add_session_player, find_session}
use fastlive.Server.Conn.Cycle.{send_kept, send_av_meta_packet}
use fastlive.Server.Conn.Total.Grown.{IsKept, Grown, write_session-Grown}

sent-Ends : {c : Connection} {o : Outcome (ℕ × Connection)} → Leaves c o → Ends o
sent-Ends (gives k) = returns tt
sent-Ends fails = errs
sent-Ends (panics x) = breaks

module _ (reform : List ℕ → Outcome (List ℕ))
    (reforms : (bytes : List ℕ) → Ends (reform bytes)) where
  send_av_packet-Ends : (packet : Packet) (p : Player) → Ends (send_av_packet reform packet p)
  unfolding send_av_packet update_base_timestamp
  send_av_packet-Ends packet p =
      Finishes-then
        (Finishes-if (packet.packet_type == meta_data) (λ _. reforms packet.bytes)
          (λ _. returns tt))
        (λ bytes _.
          Finishes-then
            (sent-Ends (send_integral_message-Leaves (packet_message packet bytes p) p.conn))
            (λ _ _. returns tt))

  send_kept-Ends : (kept : Option Packet) (p : Player) → Ends (send_kept reform kept p)
  unfolding send_kept
  send_kept-Ends (some packet) p = send_av_packet-Ends packet p
  send_kept-Ends none p = returns tt

  pub send_av_meta_packet-Ends : (s : Session) (p : Player) → Ends (send_av_meta_packet reform s p)
  unfolding send_av_meta_packet
  send_av_meta_packet-Ends s p = Finishes-then (send_kept-Ends s.meta_data p) (λ p₁ _.
      Finishes-then (send_kept-Ends s.audio_seq_header p₁)
        (λ p₂ _. send_kept-Ends s.video_seq_header p₂))

pub add_player-IsKept :
    (address : Key) (p : Player) (s : Session) → IsKept s (add_player address p s)
unfolding add_player
add_player-IsKept address p s = record { kept_key = refl; kept_watch = refl }

pub del_player-IsKept : (address : Key) (s : Session) → Finishes (IsKept s) (del_player address s)
unfolding del_player
del_player-IsKept address s = elim (Option-cases (load address s.players)) [
  | inl unknown ↦ rw (del_player, unknown) (returns (record { kept_key = refl; kept_watch = refl }))
  | inr (p, known) ↦
      rw (del_player, known)
        (Finishes-then (close_packet_buffer-Ends p)
          (λ _ _. returns (record { kept_key = refl; kept_watch = refl })))
]

-- A session that is found is the one at its address.
pub find_session-Found :
    (key : Key) (b : Broker)
    → Finishes (λ (r : ℕ × Session). get_elem? b.sessions r.0 ≡ some r.1) (find_session key b)
find_session-Found key b = elim (Option-cases (load key b.session_map)) [
  | inl unknown ↦ rw (find_session, unknown) errs
  | inr (a, known) ↦ elim (Option-cases (get_elem? b.sessions a)) [
    | inl out ↦ rw (find_session, known, out) breaks
    | inr (s, here) ↦ rw (find_session, known, here) (returns here)
  ]
]

pub add_session_player-Grown :
    (c : Connection) (address key : Key) (b : Broker)
    → Finishes (λ (r : Player × Broker). Grown b r.1) (add_session_player c address key b)
unfolding add_session_player
add_session_player-Grown c address key b = Finishes-then (find_session-Found key b) (λ (a, s) here.
    returns (
      write_session-Grown a s (add_player address (new_player c 150 350) s) b here
        (add_player-IsKept address (new_player c 150 350) s)))
