-- ===== src/Server/Conn/Total/Grown.antt =====
-- What a connection leaves of the sessions that are registered: it makes sessions, but takes none
-- out of the map and touches no watcher.
use fastlive.Base.{
  ℕ, ◌≡◌, refl, sym, ap, ◌∙◌, subst, arith, ◌==◌, Bool-cases, inl, inr, some, none, get_elem?,
  length,
}
use fastlive.Server.Table.{
  Key, load, set_elem, same_key, same_key-eq, load-put-other, get-set-same, get-set-other,
  get-push-keep,
}
use fastlive.Server.Session.{Session}
use fastlive.Server.Broker.{Broker, write_session, register}
use fastlive.Server.Conn.Cycle.{Ending, ended, waits, plays}
use fastlive.Server.Conn.Total.Registry.{SameRegistry}

-- The session is still the one of its key, with its watcher as it was.
pub record IsKept (s s' : Session) : Type 0 where
  pub kept_key : s'.stream_key ≡ s.stream_key
  pub kept_watch : s'.watch ≡ s.watch

IsKept-trans : {s t u : Session} → IsKept s t → IsKept t u → IsKept s u
IsKept-trans h k = record {
  kept_key = k.kept_key ∙ h.kept_key;
  kept_watch = k.kept_watch ∙ h.kept_watch;
}

-- Every entry of the map stays, and every session in memory is kept.
pub record Grown (b b' : Broker) : Type 0 where
  pub entries :
      (key : Key) (a : ℕ) → load key b.session_map ≡ some a → load key b'.session_map ≡ some a
  pub kept :
      (a : ℕ) (s : Session)
      → get_elem? b.sessions a ≡ some s
      → (s' : Session) × (get_elem? b'.sessions a ≡ some s') × IsKept s s'

pub Grown-refl : (b : Broker) → Grown b b
Grown-refl b = record {
  entries = λ key a e. e;
  kept = λ a s e. (s, e, record { kept_key = refl; kept_watch = refl });
}

pub Grown-trans : {b c d : Broker} → Grown b c → Grown c d → Grown b d
Grown-trans h k = record {
  entries = λ key a e. k.entries key a (h.entries key a e);
  kept = λ a s e.
      let (s₁, e₁, k₁) = h.kept a s e in
      let (s₂, e₂, k₂) = k.kept a s₁ e₁ in (s₂, e₂, IsKept-trans k₁ k₂);
}

pub SameRegistry-Grown : {b b' : Broker} → SameRegistry b b' → Grown b b'
SameRegistry-Grown h = record {
  entries = λ key a e. ap (load key) h.same_map ∙ e;
  kept = λ a s e.
      let (s', e', w) = h.same_sessions a s e in
      (s', e', record { kept_key = w.same_key; kept_watch = w.same_watch });
}

some-inj : {A : Type 0} {x y : A} → some x ≡ some y → x ≡ y
some-inj e = cc

pub write_session-Grown :
    (a : ℕ) (s s' : Session) (b : Broker)
    → get_elem? b.sessions a ≡ some s
    → IsKept s s'
    → Grown b (write_session a s' b)
write_session-Grown a s s' b here k = record {
  entries = λ key n e. e;
  kept = λ n t e. elim (Bool-cases (a == n)) [
    | inl same ↦
        let at : a ≡ n = ground (arith, same) in
        let is_s : some t ≡ some s = sym e ∙ ap (get_elem? b.sessions) (sym at) ∙ here in
        (
          s',
          subst (λ m. get_elem? (set_elem b.sessions a s') m ≡ some s') at
              (get-set-same b.sessions a s' here),
          subst (λ x. IsKept x s') (sym (some-inj is_s)) k,
        )
    | inr other ↦ (
      t,
      get-set-other b.sessions a n s' (λ at. ground (arith, at, other)) ∙ e,
      record { kept_key = refl; kept_watch = refl },
    )
  ];
}

-- A session that is new in the map.
pub register-Grown :
    (key : Key) (s : Session) (b : Broker)
    → load key b.session_map ≡ none
    → Grown b (register key s b)
register-Grown key s b unknown = record {
  entries = λ k a e. elim (Bool-cases (same_key key k)) [
    | inl same ↦
        let clash : none ≡ some a =
          sym unknown ∙ ap (λ x. load x b.session_map) (same_key-eq key k same) ∙ e in
        cc
    | inr other ↦ load-put-other key k (length b.sessions) b.session_map other ∙ e
  ];
  kept =
      λ a t e. (t, get-push-keep b.sessions s a e, record { kept_key = refl; kept_watch = refl });
}

-- Of an end that is no wait: the registry has only grown.
abbrev pub Leftover : Broker → Ending → Type 0
Leftover b (ended e b') = Grown b b'
Leftover b waits = Unit {0}
Leftover b (plays p b') = Grown b b'

pub Leftover-after :
    {b c : Broker} (ending : Ending) → Grown b c → Leftover c ending → Leftover b ending
Leftover-after (ended e b') h k = Grown-trans h k
Leftover-after waits h k = tt
Leftover-after (plays p b') h k = Grown-trans h k
