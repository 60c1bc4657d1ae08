-- ===== src/Server/Broker.antt =====
-- pkg/rtmp/server/broker.go and checkOffline: the sessions, by their stream keys. The map holds
-- pointers: a session is at an address of `sessions`. Every operation is one step; two operations
-- of different connections that overlap are not modelled.
pub mod Consistent
pub mod Change
pub mod Steps
pub mod Lost
use fastlive.Base.{
  ℕ, suc, zero, ◌+◌, ◌-◌, ◌%◌, ◌^◌, List, [], ◌∷◌, ◌++◌, length, Bool, true, false, ltb,
}
use fastlive.Base.{
  Option, none, some, Outcome, ok, err, panic, stuck, ◌>>=◌, get_elem?, if◌then◌else◌,
}
use fastlive.Base.{session_exists, session_missing}
use fastlive.Connection.{Connection}
use fastlive.Server.Table.{Key, load, put, delete, set_elem}
use fastlive.Server.Player.{Player, new_player, Progress, done, blocked}
use fastlive.Server.Session.{
  Session, Watch, waiting, timing, finished, new_session, add_player, close_players,
}

pub record Broker : Type 0 where
  -- the bits of an int32
  pub session_total : ℕ
  pub sessions : List Session
  pub session_map : List (Key × ℕ)

abbrev pub no_sessions : Broker
no_sessions = record { session_total = 0; sessions = []; session_map = [] }

-- The session that a key stands for, and its address. The address of a map entry is always one of
-- the memory.
abbrev pub find_session : Key → Broker → Outcome (ℕ × Session)
find_session key b = elim (load key b.session_map) [
  | none ↦ err session_missing
  | some a ↦ elim (get_elem? b.sessions a) [ some s ↦ ok (a, s) | none ↦ panic ]
]

abbrev pub write_session : ℕ → Session → Broker → Broker
write_session a s b = record b { sessions = set_elem b.sessions a s }

-- A session that is new in memory and in the map.
abbrev pub register : Key → Session → Broker → Broker
register key s b = record {
  session_total = (b.session_total + 1) % 2 ^ 32;
  sessions = b.sessions ++ (s ∷ []);
  session_map = put key (length b.sessions) b.session_map;
}

-- createSession: a session without a publisher is taken over, one with a publisher is an error.
unfoldable pub create_session : ℕ → Key → Key → Key → Key → Key → Broker → Outcome (ℕ × Broker)
create_session publisher app stream vhost key id b = elim (load key b.session_map) [
  | some a ↦ elim (get_elem? b.sessions a) [
    | some s ↦ elim s.publisher [
      | none ↦ ok (a, write_session a (record s { publisher = some publisher; id = id }) b)
      | some _ ↦ err session_exists
    ]
    | none ↦ panic
  ]
  | none ↦ (do
    s ← new_session id vhost app stream publisher key
    ok (length b.sessions, register key s b))
]

-- softDelSession: the publisher is gone at once; the send waits while a token is in the channel.
unfoldable pub soft_del_session : Key → Broker → Outcome (Broker × Progress (Unit {0}))
soft_del_session key b = do
  (a, s) ← find_session key b
  ok (
      if ltb 0 s.offline
      then (write_session a (record s { publisher = none }) b, blocked)
      else (write_session a (record s { publisher = none; offline = 1 }) b, done tt))

-- delSession
unfoldable pub del_session : Key → Broker → Broker
del_session key b = record b {
  session_total = (b.session_total + 2 ^ 32 - 1) % 2 ^ 32;
  session_map = delete key b.session_map;
}

-- addSessionPlayer
unfoldable pub add_session_player : Connection → Key → Key → Broker → Outcome (Player × Broker)
add_session_player c address key b = do
  (a, s) ← find_session key b
  let p = new_player c 150 350
  ok (p, write_session a (add_player address p s) b)

-- checkOffline at address `a` takes its token.
unfoldable pub take_token : ℕ → Broker → Progress Broker
take_token a b = elim (get_elem? b.sessions a) [
  | none ↦ blocked
  | some s ↦ elim s.watch [
    | waiting ↦
        if ltb 0 s.offline
        then done (write_session a (record s { offline = s.offline - 1; watch = timing }) b)
        else blocked
    | timing ↦ blocked
    | finished ↦ blocked
  ]
]

-- The function that runs 30 seconds later: a session that has a publisher again is left alone, any
-- other is removed with its players.
unfoldable pub time_out : ℕ → Broker → Outcome (Progress Broker)
time_out a b = elim (get_elem? b.sessions a) [
  | none ↦ ok blocked
  | some s ↦ elim s.watch [
    | waiting ↦ ok blocked
    | timing ↦ elim s.publisher [
      | some _ ↦ ok (done (write_session a (record s { watch = finished }) b))
      | none ↦ (do
        _ ← close_players s.players
        ok (
            done (
              del_session s.stream_key
                (write_session a (record s { players = []; watch = finished }) b))))
    ]
    | finished ↦ ok blocked
  ]
]
