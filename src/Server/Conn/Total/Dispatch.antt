-- ===== src/Server/Conn/Total/Dispatch.antt =====
-- onRecvIntegralMessage ends on any message; what it leaves of the connection and the broker.
use fastlive.Base.{ℕ, ◌^◌, ◌<◌, ◌≡◌, refl, sym, subst, arith, inl}
use fastlive.Base.{Finishes, returns, Finishes-then}
use fastlive.Chunk.{Stream, reset}
use fastlive.Connection.Handlers.{response_acknowledgement_message}
use fastlive.Connection.Receive.Sound.{IsSound}
use fastlive.Connection.Receive.Total.{AllSound, store-AllSound}
use fastlive.Server.Amf.{Amf}
use fastlive.Server.Player.{Progress, done, blocked}
use fastlive.Server.Session.Ends.{Done}
use fastlive.Server.Broker.{Broker}
use fastlive.Server.Conn.{ServerConn}
use fastlive.Server.Conn.Dispatch.{Handled, reset_handled, on_recv_integral_message}
use fastlive.Server.Conn.Total.Commands.{IsRegular}
use fastlive.Server.Conn.Total.Registry.{SameRegistry}
use fastlive.Server.Conn.Total.Handled.{Leaving, handle_message-Leaving}

-- A chunk stream between messages, whatever has been done to the data.
reset-IsSound : (msg : Stream) → msg.message_length < 2 ^ 32 → IsSound (reset msg)
unfolding reset
reset-IsSound msg h = record {
  read_le = omega arith;
  length_bound = h;
  buffer = inl refl;
  whole = λ e. ground (arith, e);
}

-- What a message leaves of the connection and the broker.
pub record Onward (sc : ServerConn) (b : Broker) (r : ServerConn × Broker) : Type 0 where
  pub sound : AllSound r.0.connection.messages
  pub same_input : r.0.connection.input ≡ sc.connection.input
  pub registry : SameRegistry b r.1

reset_handled-Onward :
    (csid : ℕ) (msg : Stream) (sc : ServerConn) (b : Broker) (r : Progress Handled)
    → msg.message_length < 2 ^ 32
    → AllSound sc.connection.messages
    → Done (Leaving msg sc b) r
    → Done (Onward sc b) (reset_handled csid r)
reset_handled-Onward csid msg sc b (done (msg', sc', b')) bound sound h = record {
  sound =
      store-AllSound csid (reset msg') sc'.connection.messages
        (reset-IsSound msg' (subst (λ n. n < 2 ^ 32) (sym h.same_length) bound))
        (subst AllSound (sym h.keeps.same_streams) sound);
  same_input = h.keeps.same_input;
  registry = h.registry;
}
reset_handled-Onward csid msg sc b blocked bound sound h = tt

-- The handling of a message ends: it gives an error, panics, waits for a player, or leaves every
-- chunk stream sound, the input as it is, and the registry with its sessions' publishers, watchers
-- and tokens.
pub on_recv_integral_message-Onward :
    (amf : Amf) (csid : ℕ) (msg : Stream) (sc : ServerConn) (b : Broker)
    → IsRegular amf
    → msg.message_length < 2 ^ 32
    → AllSound sc.connection.messages
    → Finishes (Done (Onward sc b)) (on_recv_integral_message amf csid msg sc b)
unfolding on_recv_integral_message response_acknowledgement_message
on_recv_integral_message-Onward amf csid msg sc b regular bound sound =
    Finishes-then (handle_message-Leaving amf msg sc b regular)
      (λ r h. returns (reset_handled-Onward csid msg sc b r bound sound h))
