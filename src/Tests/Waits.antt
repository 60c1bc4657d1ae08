-- ===== src/Tests/Waits.antt =====
-- A queue of one place, with a publisher inside.
use fastlive.Base.{◌≡◌, refl, true}
use fastlive.Server.Player.{new_player}
use fastlive.Server.Player.Mutex.{State, Step, Reachable, inside, playing, leaving}
use fastlive.Server.Player.Mutex.Deadlock.{buff_packets-deadlock}
use fastlive.Server.Player.Mutex.Advance.{ComesOut, buff_packets-ComesOut}
use fastlive.Tests.Connections.{idle}
use fastlive.Tests.Players.{picture}

buff_packets-deadlock_example :
    (s : State) × Reachable (new_player idle 1 350) s
    × (s.publisher ≡ inside picture)
    × (s.reader ≡ leaving)
    × ((t : State) → ¬ Step s t)
buff_packets-deadlock_example = buff_packets-deadlock idle 1 350 picture

abbrev busy : State
busy = record {
  player = new_player idle 1 350;
  held = true;
  publisher = inside picture;
  reader = playing;
}

buff_packets-ComesOut_example : ComesOut busy
buff_packets-ComesOut_example =
    buff_packets-ComesOut idle 1 350 picture busy
      (Reachable.step Reachable.begin (Step.lock_send picture)) refl refl
