-- ===== src/Server/Conn/Total/Publish.antt =====
-- The loop of publishCycle on any input.
use fastlive.Base.{ℕ, zero, suc, ◌<◌, ap, arith, length}
use fastlive.Base.{
  Outcome, ok, err, panic, stuck, Finishes, returns, errs, breaks, Finishes-weaken, ◌>>=◌,
}
use fastlive.Connection.{Connection}
use fastlive.Chunk.{Stream}
use fastlive.Connection.Receive.{recv_integral_message}
use fastlive.Connection.Steps.{Ensures, gives, fails, panics}
use fastlive.Connection.Receive.Total.{AllSound, IsWhole, recv_integral_message-IsWhole}
use fastlive.Server.Amf.{Amf}
use fastlive.Server.Player.{Progress, done, blocked}
use fastlive.Server.Session.Ends.{Done}
use fastlive.Server.Broker.{Broker}
use fastlive.Server.Conn.{ServerConn}
use fastlive.Server.Conn.Dispatch.{on_recv_integral_message, with_connection}
use fastlive.Server.Conn.Cycle.{Ending, ended, waits, plays, serve_message, publish_loop}
use fastlive.Server.Conn.Total.Commands.{IsRegular}
use fastlive.Server.Conn.Total.Dispatch.{Onward, on_recv_integral_message-Onward}
use fastlive.Server.Conn.Total.Registry.{SameRegistry, SameRegistry-refl, SameRegistry-trans}

-- What a round leaves: sound chunk streams, less input, the registry.
pub record Further (sc : ServerConn) (b : Broker) (r : ServerConn × Broker) : Type 0 where
  pub sound : AllSound r.0.connection.messages
  pub less : length r.0.connection.input < length sc.connection.input
  pub registry : SameRegistry b r.1

-- An end of the publishing loop: an error, with the registry as it was.
abbrev pub Stops : Broker → Ending → Type 0
Stops b (ended e b') = SameRegistry b b'
Stops b waits = Unit {0}
Stops b (plays p b') = ⊥

Stops-after : {b c : Broker} (ending : Ending) → SameRegistry b c → Stops c ending → Stops b ending
Stops-after (ended e b') h k = SameRegistry-trans h k
Stops-after waits h k = tt
Stops-after (plays p b') h k = absurd k

module _ (amf : Amf) (regular : IsRegular amf) where
  pub serve_message-Further :
      (sc : ServerConn) (b : Broker)
      → AllSound sc.connection.messages
      → Finishes (Done (Further sc b)) (serve_message amf sc b)
  unfolding serve_message
  serve_message-Further sc b sound =
      from_message (recv_integral_message sc.connection)
        (recv_integral_message-IsWhole sc.connection sound)
    where
      further :
          (d : Connection) (r : Progress (ServerConn × Broker))
          → length d.input < length sc.connection.input
          → Done (Onward (with_connection sc d) b) r
          → Done (Further sc b) r
      further d (done r) less h = record {
        sound = h.sound;
        less = omega (arith, less, ap length h.same_input);
        registry = h.registry;
      }
      further d blocked less h = tt

      from_message :
          (o : Outcome ((ℕ × Stream) × Connection))
          → Ensures (Unit {0}) (IsWhole sc.connection) o
          → Finishes
              (Done (Further sc b))
              (o >>= (λ r. on_recv_integral_message amf r.0.0 r.0.1 (with_connection sc r.1) b))
      from_message (ok r) (gives h) =
          Finishes-weaken
            (on_recv_integral_message-Onward amf r.0.0 r.0.1 (with_connection sc r.1) b regular
              h.0.sound.length_bound h.0.streams)
            (λ p k. further r.1 p h.0.progress k)
      from_message (err e) fails = errs
      from_message panic (panics x) = breaks
      from_message stuck x = elim x [ ]

  pub publish_loop-Stops :
      (fuel : ℕ) (sc : ServerConn) (b : Broker)
      → AllSound sc.connection.messages
      → length sc.connection.input < fuel
      → Finishes (Stops b) (publish_loop amf fuel sc b)
  unfolding publish_loop
  publish_loop-Stops zero sc b sound enough = absurd (omega (arith, enough))
  publish_loop-Stops (suc fuel) sc b sound enough =
      next (serve_message amf sc b) (serve_message-Further sc b sound)
        (λ sc' b' h. publish_loop-Stops fuel sc' b' h.sound (omega (arith, h, enough)))
    where
      next :
          (o : Outcome (Progress (ServerConn × Broker)))
          → Finishes (Done (Further sc b)) o
          → ((sc' : ServerConn) (b' : Broker)
              → Further sc b (sc', b')
              → Finishes (Stops b') (publish_loop amf fuel sc' b'))
          → Finishes (Stops b) (elim o [
            | ok r ↦ elim r [ done (sc, b) ↦ publish_loop amf fuel sc b | blocked ↦ ok waits ]
            | err e ↦ ok (ended e b)
            | panic ↦ panic
            | stuck ↦ stuck
          ])
      next (ok (done (sc', b'))) (returns h) rest =
          Finishes-weaken (rest sc' b' h) (λ ending k. Stops-after ending h.registry k)
      next (ok blocked) (returns h) rest = returns tt
      next (err e) errs rest = returns (SameRegistry-refl b)
      next panic breaks rest = breaks
      next stuck x rest = elim x [ ]
