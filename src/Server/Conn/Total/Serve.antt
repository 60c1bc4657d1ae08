-- ===== src/Server/Conn/Total/Serve.antt =====
-- serve on any input: every part of a connection's life comes to an end, and leaves the sessions of
-- the registry registered.
use fastlive.Base.{
  ◌%◌, ◌^◌, ℕ, zero, suc, ◌+◌, ◌<◌, ◌≡◌, refl, sym, subst, arith, List, length, Bool, true, false,
  Option, none, some, ◌==◌, ◌&&◌, get_elem?,
}
use fastlive.Base.{
  Outcome, ok, err, panic, stuck, Error, Key, play_timeout, Ends, Finishes, returns, errs, breaks,
  Finishes-then, Finishes-if, Finishes-weaken, if◌then◌else◌,
}
use fastlive.Connection.{Connection}
use fastlive.Connection.Steps.{Ensures, gives, fails, panics}
use fastlive.Connection.Receive.Total.{AllSound}
use fastlive.Handshake.Serve.{with_client}
use fastlive.Handshake.Greeting.{Greeted, server_handshake-Greeted}
use fastlive.Server.Player.{Player, Progress, done, blocked}
use fastlive.Server.Session.{Session, add_player}
use fastlive.Server.Session.Ends.{Done}
use fastlive.Server.Broker.{Broker}
use fastlive.Server.Conn.{ServerConn}
use fastlive.Server.Conn.Cycle.{
  Ending, plays, ended, waits, publish_cycle, play_cycle, start_playing, stream_key,
}
use fastlive.Server.Conn.Serve.{
  World, keep_handshake, handshake, recv_loop, recv_chunk_stream, serve,
}
use fastlive.Server.Conn.Total.Commands.{IsRegular}
use fastlive.Server.Conn.Total.Publish.{Further, serve_message-Further}
use fastlive.Server.Conn.Total.Leaving.{Left, publish_cycle-Left}
use fastlive.Server.Conn.Total.Grown.{
  Grown-refl, SameRegistry-Grown, write_session-Grown, Leftover, Leftover-after,
}
use fastlive.Server.Conn.Total.Play.{
  find_session-Found, add_session_player-Grown, send_av_meta_packet-Ends, add_player-IsKept,
  del_player-IsKept,
}

-- The libraries keep to what is documented of them: no call runs for ever, a digest has 32 bytes
-- and the random source fills what it is given.
pub record IsOrdinary (world : World) : Type 0 where
  pub regular : IsRegular world.amf
  pub reforms : (bytes : List ℕ) → Ends (world.reform bytes)
  pub digest_size : (key src : List ℕ) → length (world.hmac key src) ≡ 32
  pub fills : (call n : ℕ) → length (world.random call n) ≡ n

-- What comes after a step, whether it gives a result or an error.
finished :
    {A B : Type 0} {P : A → Type 0} {Q : B → Type 0} {o : Outcome A} (f : A → Outcome B)
    (g : Error → Outcome B)
    → Finishes P o
    → ((a : A) → P a → Finishes Q (f a))
    → ((e : Error) → Finishes Q (g e))
    → Finishes Q (elim o [ ok a ↦ f a | err e ↦ g e | panic ↦ panic | stuck ↦ stuck ])
finished f g (returns p) k l = k _ p
finished f g errs k l = l _
finished f g breaks k l = breaks

module _ (world : World) (ordinary : IsOrdinary world) where
  start_playing-Leftover :
      (address : Key) (a : ℕ) (s : Session) (p : Player) (b : Broker)
      → get_elem? b.sessions a ≡ some s
      → Finishes (Leftover b) (start_playing world.reform address a s p b)
  unfolding start_playing
  start_playing-Leftover address a s p b here =
      finished _ _ (send_av_meta_packet-Ends world.reform ordinary.reforms s p)
        (λ q _.
          returns (
            write_session-Grown a s (add_player address q s) b here
              (add_player-IsKept address q s)))
        (λ e.
          Finishes-then (del_player-IsKept address s)
            (λ s' k. returns (write_session-Grown a s s' b here k)))

  play_cycle-Leftover :
      (sc : ServerConn) (b : Broker)
      → Finishes (Leftover b) (play_cycle world.reform world.address sc b)
  unfolding play_cycle
  play_cycle-Leftover sc b =
      finished _ _ (add_session_player-Grown sc.connection world.address (stream_key sc) b)
        (λ (p, b') grown. Finishes-then (find_session-Found (stream_key sc) b') (λ (a, s) here.
          Finishes-weaken (start_playing-Leftover world.address a s p b' here)
            (λ ending. Leftover-after ending grown)))
        (λ e. returns (Grown-refl b))

  publish_cycle-Leftover :
      (sc : ServerConn) (b : Broker)
      → AllSound sc.connection.messages
      → Finishes (Leftover b) (publish_cycle world.amf sc b)
  publish_cycle-Leftover sc b sound =
      Finishes-weaken (publish_cycle-Left world.amf sc b ordinary.regular sound) of_left
    where
      of_left : (ending : Ending) → Left (stream_key sc) b ending → Leftover b ending
      of_left (ended e b') h = h.0
      of_left waits h = tt
      of_left (plays p b') h = absurd h

  recv_loop-Leftover :
      (fuel : ℕ) (sc : ServerConn) (b : Broker)
      → AllSound sc.connection.messages
      → length sc.connection.input < fuel
      → Finishes (Leftover b) (recv_loop world fuel sc b)
  unfolding recv_loop
  recv_loop-Leftover zero sc b sound enough = absurd (omega (arith, enough))
  recv_loop-Leftover (suc fuel) sc b sound enough =
      finished _ _ (serve_message-Further world.amf ordinary.regular sc b sound)
        (λ r h.
          next r h (λ sc' b' k. recv_loop-Leftover fuel sc' b' k.sound (omega (arith, k, enough))))
        (λ e. returns (Grown-refl b))
    where
      next :
          (r : Progress (ServerConn × Broker))
          → Done (Further sc b) r
          → ((sc' : ServerConn) (b' : Broker)
              → Further sc b (sc', b')
              → Finishes (Leftover b') (recv_loop world fuel sc' b'))
          → Finishes (Leftover b) (elim r [
            | blocked ↦ ok waits
            | done (sc, b) ↦ elim (sc.play_info.client_type == 1) [
              | true ↦ publish_cycle world.amf sc b
              | false ↦ elim (sc.play_info.client_type == 2) [
                | true ↦ play_cycle world.reform world.address sc b
                | false ↦ elim (sc.play_info.client_type == 0 && world.late fuel) [
                  | true ↦ ok (ended play_timeout b)
                  | false ↦ recv_loop world fuel sc b
                ]
              ]
            ]
          ])
      next blocked h rest = returns tt
      next (done (sc', b')) h rest =
          Finishes-weaken
            (by_type (sc'.play_info.client_type == 1) (sc'.play_info.client_type == 2)
              (sc'.play_info.client_type == 0 && world.late fuel))
            (λ ending. Leftover-after ending (SameRegistry-Grown h.registry))
        where
          by_type :
              (publishes plays late : Bool)
              → Finishes (Leftover b') (elim publishes [
                | true ↦ publish_cycle world.amf sc' b'
                | false ↦ elim plays [
                  | true ↦ play_cycle world.reform world.address sc' b'
                  | false ↦ elim late [
                    | true ↦ ok (ended play_timeout b')
                    | false ↦ recv_loop world fuel sc' b'
                  ]
                ]
              ])
          by_type true _ _ = publish_cycle-Leftover sc' b' h.sound
          by_type false true _ = play_cycle-Leftover sc' b'
          by_type false false true = returns (Grown-refl b')
          by_type false false false = rest sc' b' h

  handshake-Ends :
      (sc : ServerConn)
      → Finishes
          (λ (r : Option Error × ServerConn). r.1.connection.messages ≡ sc.connection.messages)
          (handshake world sc)
  unfolding handshake with_client keep_handshake
  handshake-Ends sc = by_error sc.handshake_err
    where
      kept :
          {o : Outcome (Unit {0} × Connection)}
          → Ensures ⊥ (λ _ c'. Greeted sc.connection c') o
          → Finishes
              (λ (r : Option Error × ServerConn). r.1.connection.messages ≡ sc.connection.messages)
              (keep_handshake sc o)
      kept (gives {c = c'} g) =
          Finishes-if ((sc.handshake_status + 1) % 2 ^ 32 == 1) (λ _. returns g.streams)
            (λ _. returns g.streams)
      kept fails = returns refl
      kept (panics x) = absurd x

      shake :
          (late : Bool)
          → Ensures ⊥
              (λ _ c'. Greeted sc.connection c')
              (with_client world.hmac world.random late sc.connection)
      shake true = fails
      shake false =
          server_handshake-Greeted world.hmac ordinary.digest_size world.random ordinary.fills
            sc.connection

      by_error :
          (failed : Option Error)
          → Finishes
              (λ (r : Option Error × ServerConn). r.1.connection.messages ≡ sc.connection.messages)
              (elim failed [
                | some e ↦ ok (some e, sc)
                | none ↦
                    if sc.handshake_status == 1
                    then ok (none, sc)
                    else keep_handshake sc
                        (with_client world.hmac world.random world.slow_handshake sc.connection)
              ])
      by_error (some e) = returns refl
      by_error none =
          Finishes-if (sc.handshake_status == 1) (λ _. returns refl)
            (λ _. kept (shake world.slow_handshake))

  -- Serving a connection, whatever its peer sends, the loops that receive do not run for ever: the
  -- service comes to an error, a panic, a wait for a player's queue or for the watcher, or the loops
  -- of a player, which are not followed any further. Where it comes to an error or to those loops,
  -- every session that was registered still is, under its key and with its watcher as it was: a
  -- connection takes no session out of the registry. (The libraries' calls end, a digest has 32
  -- bytes and the random source fills what it is given; the connection's chunk streams are sound.)
  pub serve-Leftover :
      (sc : ServerConn) (b : Broker)
      → AllSound sc.connection.messages
      → Finishes (Leftover b) (serve world sc b)
  unfolding serve recv_chunk_stream
  serve-Leftover sc b sound =
      Finishes-then (handshake-Ends sc) (λ (failed, sc') same. by_result failed sc' same)
    where
      by_result :
          (failed : Option Error) (sc' : ServerConn)
          → sc'.connection.messages ≡ sc.connection.messages
          → Finishes
              (Leftover b)
              (elim failed [ some e ↦ ok (ended e b) | none ↦ recv_chunk_stream world sc' b ])
      by_result (some e) sc' same = returns (Grown-refl b)
      by_result none sc' same =
          recv_loop-Leftover (suc (length sc'.connection.input)) sc' b
            (subst AllSound (sym same) sound) (omega arith)
