-- ===== src/Server/Broker/Steps.antt =====
-- The steps of the registry, and what holds after any number of them.
use fastlive.Base.{ℕ, ◌-◌, ◌≡◌, ◌≢◌, refl, sym, ◌∙◌, subst, arith, []}
use fastlive.Base.{ltb, none, some, Option-cases, inl, inr, After-bind}
use fastlive.Base.{ok, get_elem?, if◌then◌else◌, After, Bool-cases}
use fastlive.Base.{After-then}
use fastlive.Connection.{Connection}
use fastlive.Server.Table.{Key, load}
use fastlive.Server.Player.{Player, new_player, Progress, done, blocked}
use fastlive.Server.Session.{
  Session, Watch, waiting, timing, finished, new_session, add_player, close_players,
}
use fastlive.Server.Broker.{
  Broker, no_sessions, find_session, write_session, create_session, soft_del_session,
  add_session_player, take_token, time_out,
}
use fastlive.Server.Broker.Consistent.{IsConsistent}
use fastlive.Server.Broker.Change.{Change, wrote, registered, removed, Change-IsConsistent}

-- One operation of the broker, or one step of a session's watcher, that gets through.
pub data Step : Broker → Broker → Type 0 where
  create :
      (publisher : ℕ) (app stream vhost key id : Key) {b b' : Broker} (a : ℕ)
      → create_session publisher app stream vhost key id b ≡ ok (a, b')
      → Step b b'
  soft_delete :
      (key : Key) {b b' : Broker} (r : Progress (Unit {0}))
      → soft_del_session key b ≡ ok (b', r)
      → Step b b'
  play :
      (c : Connection) (address key : Key) {b b' : Broker} (p : Player)
      → add_session_player c address key b ≡ ok (p, b')
      → Step b b'
  notice : (a : ℕ) {b b' : Broker} → take_token a b ≡ done b' → Step b b'
  expire : (a : ℕ) {b b' : Broker} → time_out a b ≡ ok (done b') → Step b b'

-- The states that lead from an empty registry.
pub data Reachable : Broker → Type 0 where
  start : Reachable no_sessions
  next : {b b' : Broker} → Reachable b → Step b b' → Reachable b'

new_session-key :
    (id vhost app stream : Key) (publisher : ℕ) (key : Key)
    → After (λ s. s.stream_key ≡ key) (new_session id vhost app stream publisher key)
unfolding new_session
new_session-key id vhost app stream publisher key = ground arith

create_session-Change :
    (publisher : ℕ) (app stream vhost key id : Key) (b : Broker)
    → IsConsistent b
    → After (λ r. Change b r.1) (create_session publisher app stream vhost key id b)
unfolding create_session
create_session-Change publisher app stream vhost key id b i =
    elim (Option-cases (load key b.session_map)) [
      | inl new ↦
          rw (create_session, new)
            (After-then (λ s. s.stream_key ≡ key) (λ r. Change b r.1)
              (new_session id vhost app stream publisher key) _
              (new_session-key id vhost app stream publisher key)
              (λ s same. registered key s new same))
      | inr (a, known) ↦
          let (s, at_a, eq) = i.entries key a known in
          elim (Option-cases s.publisher) [
            | inl gone ↦
                rw (create_session, known, at_a, gone)
                  (wrote a s (record s { publisher = some publisher; id = id }) at_a refl (λ w. w)
                    (λ f. f))
            | inr (p, there) ↦ rw (create_session, known, at_a, there) tt
          ]
    ]

find_session-get :
    (key : Key) (b : Broker)
    → IsConsistent b
    → After (λ r. get_elem? b.sessions r.0 ≡ some r.1) (find_session key b)
find_session-get key b i = elim (Option-cases (load key b.session_map)) [
  | inl new ↦ rw (find_session, new) tt
  | inr (a, known) ↦
      let (s, at_a, eq) = i.entries key a known in rw (find_session, known, at_a) at_a
]

soft_del_session-Change :
    (key : Key) (b : Broker) → IsConsistent b → After (λ r. Change b r.0) (soft_del_session key b)
unfolding soft_del_session
soft_del_session-Change key b i =
    After-then (λ r. get_elem? b.sessions r.0 ≡ some r.1) (λ r. Change b r.0) (find_session key b) _
      (find_session-get key b i)
      (λ (a, s) at_a. elim (Bool-cases (ltb 0 s.offline)) [
        | inl full ↦ rw full (wrote a s (record s { publisher = none }) at_a refl (λ w. w) (λ f. f))
        | inr free ↦
            rw free
              (wrote a s (record s { publisher = none; offline = 1 }) at_a refl (λ w. w) (λ f. f))
      ])

add_session_player-Change :
    (c : Connection) (address key : Key) (b : Broker)
    → IsConsistent b
    → After (λ r. Change b r.1) (add_session_player c address key b)
unfolding add_session_player add_player
add_session_player-Change c address key b i =
    After-then (λ r. get_elem? b.sessions r.0 ≡ some r.1) (λ r. Change b r.1) (find_session key b) _
      (find_session-get key b i)
      (λ (a, s) at_a.
        wrote a s (add_player address (new_player c 150 350) s) at_a refl (λ w. w) (λ f. f))

-- `P` holds of the broker that a step leaves, if it need not wait.
abbrev Left : (Broker → Type 0) → Progress Broker → Type 0
Left P (done b) = P b
Left P blocked = Unit {0}

take_token-Change : (a : ℕ) (b : Broker) → IsConsistent b → Left (Change b) (take_token a b)
unfolding take_token
take_token-Change a b i = elim (Option-cases (get_elem? b.sessions a)) [
  | inl nowhere ↦ rw (take_token, nowhere) tt
  | inr (s, at_a) ↦ rw (take_token, at_a) (by_watch s at_a s.watch refl)
]
  where
    by_watch :
        (s : Session)
        → get_elem? b.sessions a ≡ some s
        → (w : Watch) → s.watch ≡ w
        → Left (Change b) (elim w [
          | waiting ↦
              if ltb 0 s.offline
              then done (write_session a (record s { offline = s.offline - 1; watch = timing }) b)
              else blocked
          | timing ↦ blocked
          | finished ↦ blocked
        ])
    by_watch s at_a waiting e = elim (Bool-cases (ltb 0 s.offline)) [
      | inl token ↦ rw token (
          wrote a s (record s { offline = s.offline - 1; watch = timing }) at_a refl
            (λ _ f. running (sym e ∙ f)) (λ f. absurd (running (sym e ∙ f))))
      | inr nothing ↦ rw nothing tt
    ]
      where
        running : waiting ≢ finished
        running f = cc
    by_watch s at_a timing e = tt
    by_watch s at_a finished e = tt

time_out-Change : (a : ℕ) (b : Broker) → IsConsistent b → After (Left (Change b)) (time_out a b)
unfolding time_out
time_out-Change a b i = elim (Option-cases (get_elem? b.sessions a)) [
  | inl nowhere ↦ rw (time_out, nowhere) tt
  | inr (s, at_a) ↦ by_watch s at_a s.watch refl
]
  where
    by_watch :
        (s : Session)
        → get_elem? b.sessions a ≡ some s
        → (w : Watch) → s.watch ≡ w
        → After (Left (Change b)) (time_out a b)
    by_watch s at_a waiting e = rw (time_out, at_a, e) tt
    by_watch s at_a timing e = elim (Option-cases s.publisher) [
      | inl gone ↦
          rw (time_out, at_a, e, gone)
            (After-bind (Left (Change b)) (close_players s.players) _ (λ _.
              removed a s (record s { players = []; watch = finished }) at_a
                (λ f. running (sym e ∙ f)) refl))
      | inr (p, back) ↦
          rw (time_out, at_a, e, back)
            (wrote a s (record s { watch = finished }) at_a refl (λ w. absurd (w refl)) (λ _. refl))
    ]
      where
        running : timing ≢ finished
        running f = cc
    by_watch s at_a finished e = rw (time_out, at_a, e) tt

-- Every step is one of the three changes.
pub Step-Change : {b b' : Broker} → IsConsistent b → Step b b' → Change b b'
Step-Change {b} i (create publisher app stream vhost key id a e) =
    subst (After (λ r. Change b r.1)) e
      (create_session-Change publisher app stream vhost key id b i)
Step-Change {b} i (soft_delete key r e) =
    subst (After (λ r. Change b r.0)) e (soft_del_session-Change key b i)
Step-Change {b} i (play c address key p e) =
    subst (After (λ r. Change b r.1)) e (add_session_player-Change c address key b i)
Step-Change {b} i (notice a e) = subst (Left (Change b)) e (take_token-Change a b i)
Step-Change {b} i (expire a e) = subst (After (Left (Change b))) e (time_out-Change a b i)

-- In every state that the registry can reach, each session whose watcher has not finished is in the
-- map under its own key, each entry of the map is a session with that key, no key stands twice, and
-- the count of sessions is the number of entries, modulo 2 ^ 32.
pub Reachable-IsConsistent : {b : Broker} → Reachable b → IsConsistent b
Reachable-IsConsistent start = record {
  live = λ a s e w. ground (arith, e);
  entries = λ k a e. ground (arith, e);
  distinct = tt;
  count = omega arith;
}
Reachable-IsConsistent (next r s) =
    Change-IsConsistent (Reachable-IsConsistent r) (Step-Change (Reachable-IsConsistent r) s)
