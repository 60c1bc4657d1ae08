-- ===== src/Server/Broker/Lost.antt =====
-- A session whose watcher finished while it was in the map.
use fastlive.Base.{
  ℕ, ◌≡◌, ◌≢◌, sym, ap, ◌∙◌, some, none, get_elem?, Bool-cases, inl, inr, ◌==◌, ==→eq, ==→ne,
}
use fastlive.Server.Table.{
  Key, load, set_elem, same_key, same_key-eq, load-put-other, load-delete-other, get-set-same,
  get-set-other, get-push-keep,
}
use fastlive.Base.{length}
use fastlive.Server.Session.{Session, finished}
use fastlive.Server.Broker.{Broker, write_session, register, del_session}
use fastlive.Server.Broker.Consistent.{IsConsistent, some-eq, none-some}
use fastlive.Server.Broker.Change.{Change, wrote, registered, removed}
use fastlive.Server.Broker.Steps.{Step, Reachable, Step-Change, Reachable-IsConsistent, next}

-- The session at an address is in the map, and no one watches it.
pub record IsLost (a : ℕ) (b : Broker) : Type 0 where
  pub session : Session
  pub place : get_elem? b.sessions a ≡ some session
  pub over : session.watch ≡ finished
  pub entry : load session.stream_key b.session_map ≡ some a

write_session-IsLost :
    (n a : ℕ) (s s' : Session) (b : Broker)
    → IsLost n b
    → get_elem? b.sessions a ≡ some s
    → s'.stream_key ≡ s.stream_key
    → (s.watch ≡ finished → s'.watch ≡ finished)
    → IsLost n (write_session a s' b)
write_session-IsLost n a s s' b l at_a key still = elim (Bool-cases (a == n)) [
  | inl here ↦
      let an : a ≡ n = ==→eq a n here in
      let st : s ≡ l.session = some-eq (sym at_a ∙ ap (λ m. get_elem? b.sessions m) an ∙ l.place) in
      record {
        session = s';
        place =
            ap (λ m. get_elem? (set_elem b.sessions a s') m) (sym an)
            ∙ get-set-same b.sessions a s' at_a;
        over = still (ap (λ t. t.watch) st ∙ l.over);
        entry = ap (λ k. load k b.session_map) (key ∙ ap (λ t. t.stream_key) st) ∙ l.entry;
      }
  | inr other ↦ record {
    session = l.session;
    place = get-set-other b.sessions a n s' (==→ne a n other) ∙ l.place;
    over = l.over;
    entry = l.entry;
  }
]

register-IsLost :
    (n : ℕ) (key : Key) (s : Session) (b : Broker)
    → IsLost n b
    → load key b.session_map ≡ none
    → IsLost n (register key s b)
register-IsLost n key s b l new = record {
  session = l.session;
  place = get-push-keep b.sessions s n l.place;
  over = l.over;
  entry = elim (Bool-cases (same_key key l.session.stream_key)) [
    | inl clash ↦ absurd (
        none-some (
          sym new
          ∙ ap (λ k. load k b.session_map) (same_key-eq key l.session.stream_key clash)
          ∙ l.entry))
    | inr apart ↦
        load-put-other key l.session.stream_key (length b.sessions) b.session_map apart ∙ l.entry
  ];
}

del_session-IsLost :
    (n a : ℕ) (s s' : Session) (b : Broker)
    → IsConsistent b
    → IsLost n b
    → get_elem? b.sessions a ≡ some s
    → s.watch ≢ finished
    → IsLost n (del_session s.stream_key (write_session a s' b))
unfolding del_session
del_session-IsLost n a s s' b i l at_a watched = record {
  session = l.session;
  place = get-set-other b.sessions a n s' apart ∙ l.place;
  over = l.over;
  entry = elim (Bool-cases (same_key s.stream_key l.session.stream_key)) [
    | inl clash ↦ absurd (
        apart (
          some-eq (
            sym (i.live a s at_a watched)
            ∙ ap (λ k. load k b.session_map) (same_key-eq s.stream_key l.session.stream_key clash)
            ∙ l.entry)))
    | inr other ↦ load-delete-other s.stream_key l.session.stream_key b.session_map other ∙ l.entry
  ];
}
  where
    apart : a ≢ n
    apart an = watched (
        ap (λ t. t.watch) (some-eq (sym at_a ∙ ap (λ m. get_elem? b.sessions m) an ∙ l.place))
        ∙ l.over)

Change-IsLost : {b b' : Broker} (n : ℕ) → IsConsistent b → Change b b' → IsLost n b → IsLost n b'
Change-IsLost {b} n i (wrote a s s' at_a key _ still) l =
    write_session-IsLost n a s s' b l at_a key still
Change-IsLost {b} n i (registered key s new _) l = register-IsLost n key s b l new
Change-IsLost {b} n i (removed a s s' at_a w _) l = del_session-IsLost n a s s' b i l at_a w

-- A run of steps.
pub data Run : Broker → Broker → Type 0 where
  halt : {b : Broker} → Run b b
  go : {b c d : Broker} → Step b c → Run c d → Run b d

-- Once the watcher of a session has finished while the session is in the map of a reachable
-- registry, the session is in the map, and its watcher finished, after every run of steps.
pub Run-IsLost : {b b' : Broker} (a : ℕ) → Reachable b → IsLost a b → Run b b' → IsLost a b'
Run-IsLost a r l halt = l
Run-IsLost a r l (go s run) =
    Run-IsLost a (next r s)
      (Change-IsLost a (Reachable-IsConsistent r) (Step-Change (Reachable-IsConsistent r) s) l) run
