-- ===== src/Tests/Registry.antt =====
-- A session that is published and whose publisher goes away.
use fastlive.Base.{[], ◌∷◌, refl, none, some}
use fastlive.Server.Table.{Key}
use fastlive.Server.Player.{done}
use fastlive.Server.Session.{Session, waiting, new_session}
use fastlive.Server.Broker.{
  Broker, no_sessions, register, create_session, soft_del_session, write_session,
}
use fastlive.Server.Session.{timing, finished}
use fastlive.Server.Broker.{take_token, time_out}
use fastlive.Server.Broker.Lost.{IsLost, Run, halt, go, Run-IsLost}
use fastlive.Server.Broker.Consistent.{IsConsistent}
use fastlive.Server.Broker.Steps.{
  Reachable, start, next, create, soft_delete, notice, expire, Reachable-IsConsistent,
}

abbrev live_key : Key
live_key = 104 ∷ 47 ∷ 97 ∷ 47 ∷ 115 ∷ []

abbrev pub published : Session
published = record {
  id = 1 ∷ [];
  vhost = 104 ∷ [];
  app_name = 97 ∷ [];
  stream_name = 115 ∷ [];
  stream_key = live_key;
  publisher = some 7;
  players = [];
  offline = 0;
  watch = waiting;
  meta_data = none;
  audio_seq_header = none;
  video_seq_header = none;
}

abbrev pub one : Broker
one = register live_key published no_sessions

abbrev offline_one : Broker
offline_one = write_session 0 (record published { publisher = none; offline = 1 }) one

offline_one-Reachable : Reachable offline_one
unfolding create_session new_session soft_del_session
offline_one-Reachable =
    next (next start (create 7 (97 ∷ []) (115 ∷ []) (104 ∷ []) live_key (1 ∷ []) 0 refl))
      (soft_delete live_key (done tt) refl)

Reachable-IsConsistent_example : IsConsistent offline_one
Reachable-IsConsistent_example = Reachable-IsConsistent offline_one-Reachable

-- The publisher comes back before the 30 seconds are over, and leaves again.
abbrev back : Session
back = record published { publisher = some 8; watch = timing }

abbrev back_one : Broker
back_one = write_session 0 back one

abbrev lost_one : Broker
lost_one = write_session 0 (record back { watch = finished }) one

abbrev left_one : Broker
left_one = write_session 0 (record back { watch = finished; publisher = none; offline = 1 }) one

back_one-Reachable : Reachable back_one
unfolding create_session take_token
back_one-Reachable =
    next (next offline_one-Reachable (notice 0 refl))
      (create 8 (97 ∷ []) (115 ∷ []) (104 ∷ []) live_key (1 ∷ []) 0 refl)

lost_one-Reachable : Reachable lost_one
unfolding time_out
lost_one-Reachable = next back_one-Reachable (expire 0 refl)

lost_one-IsLost : IsLost 0 lost_one
lost_one-IsLost = record {
  session = record back { watch = finished };
  place = refl;
  over = refl;
  entry = refl;
}

lost_one-Run : Run lost_one left_one
unfolding soft_del_session
lost_one-Run = go (soft_delete live_key (done tt) refl) halt

Run-IsLost_example : IsLost 0 left_one
Run-IsLost_example = Run-IsLost 0 lost_one-Reachable lost_one-IsLost lost_one-Run
