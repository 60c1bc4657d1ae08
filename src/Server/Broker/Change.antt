-- ===== src/Server/Broker/Change.antt =====
-- The three changes that the operations make in the registry.
use fastlive.Base.{ℕ, ◌≡◌, ◌≢◌, some, none, get_elem?}
use fastlive.Server.Table.{Key, load}
use fastlive.Server.Session.{Session, finished}
use fastlive.Server.Broker.{Broker, write_session, register, del_session}
use fastlive.Server.Broker.Consistent.{
  IsConsistent, write_session-IsConsistent, register-IsConsistent, del_session-IsConsistent,
}

-- A session is written, which keeps its key and does not start its watcher again; a session is
-- registered under a new key; or a session is removed by its watcher, which finishes.
pub data Change (b : Broker) : Broker → Type 0 where
  wrote :
      (a : ℕ) (s s' : Session)
      → get_elem? b.sessions a ≡ some s
      → s'.stream_key ≡ s.stream_key
      → (s'.watch ≢ finished → s.watch ≢ finished)
      → (s.watch ≡ finished → s'.watch ≡ finished)
      → Change b (write_session a s' b)
  registered :
      (key : Key) (s : Session)
      → load key b.session_map ≡ none
      → s.stream_key ≡ key
      → Change b (register key s b)
  removed :
      (a : ℕ) (s s' : Session)
      → get_elem? b.sessions a ≡ some s
      → s.watch ≢ finished
      → s'.watch ≡ finished
      → Change b (del_session s.stream_key (write_session a s' b))

pub Change-IsConsistent : {b b' : Broker} → IsConsistent b → Change b b' → IsConsistent b'
Change-IsConsistent {b} i (wrote a s s' at_a key w _) =
    write_session-IsConsistent b a s s' i at_a key w
Change-IsConsistent {b} i (registered key s new same) = register-IsConsistent key s b i new same
Change-IsConsistent {b} i (removed a s s' at_a w over) =
    del_session-IsConsistent b a s s' i at_a w over
