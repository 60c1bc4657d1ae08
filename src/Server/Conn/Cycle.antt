-- ===== src/Server/Conn/Cycle.antt =====
-- server_conn.go: publishCycle and playCycle. The loop runs on fuel: each round takes a byte of the
-- input at least. Nothing but the connection changes the broker meanwhile.
use fastlive.Base.{ℕ, zero, suc, List, length, Option, none, some}
use fastlive.Base.{Outcome, ok, err, panic, stuck, ◌>>=◌, Error, Key, codes}
use fastlive.Connection.Receive.{recv_integral_message}
use fastlive.Server.Amf.{Amf}
use fastlive.Server.Client.{gen_stream_key, parse_vhost}
use fastlive.Server.Player.{Player, Progress, done, blocked, send_av_packet}
use fastlive.Server.Session.{Session, add_player, del_player}
use fastlive.Av.{Packet}
use fastlive.Server.Broker.{
  Broker, create_session, soft_del_session, add_session_player, find_session, write_session,
}
use fastlive.Server.Conn.{ServerConn}
use fastlive.Server.Conn.Dispatch.{on_recv_integral_message, with_connection}

-- How a connection's life goes on or ends, with the broker as it is then.
pub data Ending : Type 0 where
  -- an error, with which the connection is closed
  ended : Error → Broker → Ending
  -- a wait that nothing in this connection ends
  waits : Ending
  -- doPlaying, whose player has been sent the session's headers
  plays : Player → Broker → Ending

-- The key of the client's stream.
unfoldable pub stream_key : ServerConn → Key
stream_key sc =
    gen_stream_key (parse_vhost sc.connect_info.tc_url) sc.connect_info.app sc.play_info.stream

-- The deferred softDelSession, whose error is logged.
unfoldable pub leave_session : Key → Ending → Outcome Ending
leave_session key (ended e b) = elim (soft_del_session key b) [
  | ok (b, r) ↦ ok (elim r [ done _ ↦ ended e b | blocked ↦ waits ])
  | err _ ↦ ok (ended e b)
  | panic ↦ panic
  | stuck ↦ stuck
]
leave_session key waits = ok waits
leave_session key (plays p b) = ok (plays p b)

module _ (amf : Amf) where
  -- One message: received and handled.
  unfoldable pub serve_message : ServerConn → Broker → Outcome (Progress (ServerConn × Broker))
  serve_message sc b = do
    ((csid, msg), c) ← recv_integral_message sc.connection
    on_recv_integral_message amf csid msg (with_connection sc c) b

  -- The loop of publishCycle.
  unfoldable pub publish_loop : ℕ → ServerConn → Broker → Outcome Ending
  publish_loop zero sc b = stuck
  publish_loop (suc fuel) sc b = elim (serve_message sc b) [
    | ok r ↦ elim r [ done (sc, b) ↦ publish_loop fuel sc b | blocked ↦ ok waits ]
    | err e ↦ ok (ended e b)
    | panic ↦ panic
    | stuck ↦ stuck
  ]

  -- publishCycle
  unfoldable pub publish_cycle : ServerConn → Broker → Outcome Ending
  publish_cycle sc b =
      elim (create_session sc.number sc.connect_info.app sc.play_info.stream
        (parse_vhost sc.connect_info.tc_url) (stream_key sc)
        (codes "E21A4829-6AAF-43FF-8405-3DB2B470FA13") b) [
          | ok (a, b) ↦ (do
            ending ← publish_loop (suc (length sc.connection.input)) (record sc { sess = some a }) b
            leave_session (stream_key sc) ending)
          | err e ↦ ok (ended e b)
          | panic ↦ panic
          | stuck ↦ stuck
        ]

module _ (reform : List ℕ → Outcome (List ℕ)) where
  -- A packet of sendAvMetaPacket, if the session has it.
  unfoldable pub send_kept : Option Packet → Player → Outcome Player
  send_kept (some packet) p = send_av_packet reform packet p
  send_kept none p = ok p

  -- sendAvMetaPacket
  unfoldable pub send_av_meta_packet : Session → Player → Outcome Player
  send_av_meta_packet s p = do
    p ← send_kept s.meta_data p
    p ← send_kept s.audio_seq_header p
    send_kept s.video_seq_header p

  -- doPlaying up to its loops; an error removes the player, as the deferred delPlayer does.
  unfoldable pub start_playing : Key → ℕ → Session → Player → Broker → Outcome Ending
  start_playing address a s p b = elim (send_av_meta_packet s p) [
    | ok p ↦ ok (plays p (write_session a (add_player address p s) b))
    | err e ↦ (do s ← del_player address s; ok (ended e (write_session a s b)))
    | panic ↦ panic
    | stuck ↦ stuck
  ]

  -- playCycle, with the client's remote address.
  unfoldable pub play_cycle : Key → ServerConn → Broker → Outcome Ending
  play_cycle address sc b = elim (add_session_player sc.connection address (stream_key sc) b) [
    | ok (p, b) ↦ (do (a, s) ← find_session (stream_key sc) b; start_playing address a s p b)
    | err e ↦ ok (ended e b)
    | panic ↦ panic
    | stuck ↦ stuck
  ]
