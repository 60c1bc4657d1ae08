-- ===== src/Server/Conn/Total/Leaving.antt =====
-- publishCycle on any input: how it leaves the session.
use fastlive.Base.{
  ℕ, suc, ◌≡◌, ◌⊎◌, refl, ap, ◌∙◌, arith, length, Bool-cases, inl, inr, ◌==◌, true, false, Option,
  none, some, Option-cases, get_elem?, ltb,
}
use fastlive.Base.{
  Outcome, ok, err, panic, stuck, Error, Key, codes, session_exists, Ends, Finishes, returns, errs,
  breaks, Finishes-then, Finishes-if, ◌>>=◌,
}
use fastlive.Connection.Receive.Total.{AllSound}
use fastlive.Server.Amf.{Amf}
use fastlive.Server.Table.{load, load-put-same, get-push-last, get-set-same}
use fastlive.Server.Player.{done, blocked}
use fastlive.Server.Session.{Session, new_session}
use fastlive.Server.Broker.{
  Broker, create_session, soft_del_session, find_session, register, write_session,
}
use fastlive.Server.Client.{parse_vhost}
use fastlive.Server.Conn.{ServerConn}
use fastlive.Server.Conn.Cycle.{
  Ending, ended, waits, plays, publish_loop, publish_cycle, leave_session, stream_key,
}
use fastlive.Server.Conn.Total.Commands.{IsRegular}
use fastlive.Server.Conn.Total.Grown.{
  Grown, Grown-refl, Grown-trans, SameRegistry-Grown, write_session-Grown, register-Grown,
}
use fastlive.Server.Conn.Total.Publish.{Stops, publish_loop-Stops}

-- The session of a key.
abbrev pub Registered : Key → ℕ → Session → Broker → Type 0
Registered key a s b = (load key b.session_map ≡ some a) × (get_elem? b.sessions a ≡ some s)

new_session-Ends :
    (id vhost app stream : Key) (publisher : ℕ) (key : Key)
    → Ends (new_session id vhost app stream publisher key)
unfolding new_session
new_session-Ends id vhost app stream publisher key =
    Finishes-if (length id == 0) (λ _. errs)
      (λ _.
        Finishes-if (length vhost == 0) (λ _. errs)
          (λ _.
            Finishes-if (length app == 0) (λ _. errs)
              (λ _.
                Finishes-if (length stream == 0) (λ _. errs)
                  (λ _. Finishes-if (length key == 0) (λ _. errs) (λ _. returns tt)))))

create_session-Registered :
    (publisher : ℕ) (app stream vhost key id : Key) (b : Broker)
    → Finishes
        (λ (r : ℕ × Broker). ((s : Session) × Registered key r.0 s r.1) × Grown b r.1)
        (create_session publisher app stream vhost key id b)
unfolding create_session
create_session-Registered publisher app stream vhost key id b = by_key (load key b.session_map) refl
  where
    by_publisher :
        (a : ℕ) (s : Session) (old : Option ℕ)
        → load key b.session_map ≡ some a
        → get_elem? b.sessions a ≡ some s
        → Finishes
            (λ (r : ℕ × Broker). ((t : Session) × Registered key r.0 t r.1) × Grown b r.1)
            (elim old [
              | none ↦ ok (a, write_session a (record s { publisher = some publisher; id = id }) b)
              | some _ ↦ err session_exists
            ])
    by_publisher a s none known here = returns (
      (
        record s { publisher = some publisher; id = id },
        (known, get-set-same b.sessions a (record s { publisher = some publisher; id = id }) here),
      ),
      write_session-Grown a s (record s { publisher = some publisher; id = id }) b here
          (record { kept_key = refl; kept_watch = refl }),
    )
    by_publisher a s (some n) known here = errs

    by_key :
        (o : Option ℕ)
        → load key b.session_map ≡ o
        → Finishes
            (λ (r : ℕ × Broker). ((t : Session) × Registered key r.0 t r.1) × Grown b r.1)
            (elim o [
              | some a ↦ elim (get_elem? b.sessions a) [
                | some s ↦ elim s.publisher [
                  | none ↦
                      ok (a, write_session a (record s { publisher = some publisher; id = id }) b)
                  | some _ ↦ err session_exists
                ]
                | none ↦ panic
              ]
              | none ↦ (do
                s ← new_session id vhost app stream publisher key
                ok (length b.sessions, register key s b))
            ])
    by_key (some a) known = elim (Option-cases (get_elem? b.sessions a)) [
      | inl out ↦ rw out breaks
      | inr (s, here) ↦ rw here (by_publisher a s s.publisher known here)
    ]
    by_key none unknown = Finishes-then (new_session-Ends id vhost app stream publisher key) (λ s _.
        returns (
          (s, (load-put-same key (length b.sessions) b.session_map, get-push-last b.sessions s)),
          register-Grown key s b unknown,
        ))

-- An end of a publisher. With an error, the registry has only grown, and it is as it was before the
-- publisher came, or the publisher's session has no publisher and one token for its watcher. Of a
-- wait nothing is said.
abbrev pub Left : Key → Broker → Ending → Type 0
Left key b (ended e b') =
    Grown b b'
    × ((b' ≡ b)
        ⊎ ((a : ℕ) × (s : Session) × Registered key a s b'
            × (s.publisher ≡ none)
            × (s.offline ≡ 1)))
Left key b waits = Unit {0}
Left key b (plays p b') = ⊥

soft_del_session-empty :
    (key : Key) (b : Broker) (a : ℕ) (s : Session)
    → Registered key a s b
    → ltb 0 s.offline ≡ false
    → soft_del_session key b
      ≡ ok (write_session a (record s { publisher = none; offline = 1 }) b, done tt)
unfolding soft_del_session
soft_del_session-empty key b a s reg empty =
    rw (soft_del_session, find_session, reg.0, reg.1, empty) refl

soft_del_session-full :
    (key : Key) (b : Broker) (a : ℕ) (s : Session)
    → Registered key a s b
    → ltb 0 s.offline ≡ true
    → soft_del_session key b ≡ ok (write_session a (record s { publisher = none }) b, blocked)
unfolding soft_del_session
soft_del_session-full key b a s reg full =
    rw (soft_del_session, find_session, reg.0, reg.1, full) refl

leave_session-Left :
    (key : Key) (b b' : Broker) (e : Error) (a : ℕ) (s : Session)
    → Registered key a s b'
    → Grown b b'
    → Finishes (Left key b) (leave_session key (ended e b'))
unfolding leave_session
leave_session-Left key b b' e a s reg grown = elim (Bool-cases (ltb 0 s.offline)) [
  | inl full ↦ rw (leave_session, soft_del_session-full key b' a s reg full) (returns tt)
  | inr empty ↦
      rw (leave_session, soft_del_session-empty key b' a s reg empty)
        (returns (
          Grown-trans grown (
              write_session-Grown a s (record s { publisher = none; offline = 1 }) b' reg.1
                (record { kept_key = refl; kept_watch = refl })),
          inr (
            a,
            record s { publisher = none; offline = 1 },
            (reg.0, get-set-same b'.sessions a (record s { publisher = none; offline = 1 }) reg.1),
            refl,
            refl,
          ),
        ))
]

leaving :
    (key : Key) (b b₁ : Broker) (a : ℕ) (s : Session) (ending : Ending)
    → Registered key a s b₁
    → Grown b b₁
    → Stops b₁ ending
    → Finishes (Left key b) (leave_session key ending)
unfolding leave_session
leaving key b b₁ a s (ended e b') reg grown h =
    let (s', here, w) = h.same_sessions a s reg.1 in
    leave_session-Left key b b' e a s' (ap (load key) h.same_map ∙ reg.0, here)
      (Grown-trans grown (SameRegistry-Grown h))
leaving key b b₁ a s waits reg grown h = returns tt
leaving key b b₁ a s (plays p b') reg grown h = absurd h

pub publish_cycle-Left :
    (amf : Amf) (sc : ServerConn) (b : Broker)
    → IsRegular amf
    → AllSound sc.connection.messages
    → Finishes (Left (stream_key sc) b) (publish_cycle amf sc b)
unfolding publish_cycle
publish_cycle-Left amf sc b regular sound = from_session (
    create_session-Registered sc.number sc.connect_info.app sc.play_info.stream
      (parse_vhost sc.connect_info.tc_url) (stream_key sc)
      (codes "E21A4829-6AAF-43FF-8405-3DB2B470FA13") b)
  where
    key : Key
    key = stream_key sc

    from_session :
        {o : Outcome (ℕ × Broker)}
        → Finishes (λ (r : ℕ × Broker). ((s : Session) × Registered key r.0 s r.1) × Grown b r.1) o
        → Finishes (Left key b) (elim o [
          | ok (a, b) ↦ (do
            ending ←
                publish_loop amf (suc (length sc.connection.input)) (record sc { sess = some a }) b
            leave_session key ending)
          | err e ↦ ok (ended e b)
          | panic ↦ panic
          | stuck ↦ stuck
        ])
    from_session (returns {a = r} h) =
        Finishes-then
          (publish_loop-Stops amf regular (suc (length sc.connection.input))
            (record sc { sess = some r.0 }) r.1 sound (omega arith))
          (λ ending k. leaving key b r.1 r.0 h.0.0 ending h.0.1 h.1 k)
    from_session errs = returns (Grown-refl b, inl refl)
    from_session breaks = breaks
