-- ===== src/Server/Conn/Total/Registry.antt =====
-- What the handling of a message leaves of the broker.
use fastlive.Base.{
  ℕ, ◌≡◌, refl, sym, ap, ◌∙◌, subst, arith, ◌==◌, Bool-cases, inl, inr, some, get_elem?,
}
use fastlive.Server.Table.{set_elem, get-set-same, get-set-other}
use fastlive.Server.Session.{Session}
use fastlive.Server.Session.Ends.{SameWatch, SameWatch-refl}
use fastlive.Server.Broker.{Broker, write_session}

-- The registry is as before, and every session has its publisher, its watcher and its tokens.
pub record SameRegistry (b b' : Broker) : Type 0 where
  pub same_map : b'.session_map ≡ b.session_map
  pub same_sessions :
      (a : ℕ) (s : Session)
      → get_elem? b.sessions a ≡ some s
      → (s' : Session) × (get_elem? b'.sessions a ≡ some s') × SameWatch s s'

pub SameRegistry-refl : (b : Broker) → SameRegistry b b
SameRegistry-refl b = record { same_map = refl; same_sessions = λ a s e. (s, e, SameWatch-refl s) }

pub SameRegistry-trans : {b c d : Broker} → SameRegistry b c → SameRegistry c d → SameRegistry b d
SameRegistry-trans h k = record {
  same_map = k.same_map ∙ h.same_map;
  same_sessions = λ a s e.
      let (s₁, e₁, w₁) = h.same_sessions a s e in
      let (s₂, e₂, w₂) = k.same_sessions a s₁ e₁ in
      (
        s₂,
        e₂,
        record {
          same_publisher = w₂.same_publisher ∙ w₁.same_publisher;
          same_offline = w₂.same_offline ∙ w₁.same_offline;
          same_watch = w₂.same_watch ∙ w₁.same_watch;
          same_key = w₂.same_key ∙ w₁.same_key;
        },
      );
}

pub write_session-SameRegistry :
    (a : ℕ) (s s' : Session) (b : Broker)
    → get_elem? b.sessions a ≡ some s
    → SameWatch s s'
    → SameRegistry b (write_session a s' b)
write_session-SameRegistry a s s' b here w = record {
  same_map = refl;
  same_sessions = λ a' t e. elim (Bool-cases (a == a')) [
    | inl same ↦
        let at : a ≡ a' = ground (arith, same) in
        let is_s : some t ≡ some s = sym e ∙ ap (get_elem? b.sessions) (sym at) ∙ here in
        (
          s',
          subst (λ n. get_elem? (set_elem b.sessions a s') n ≡ some s') at
              (get-set-same b.sessions a s' here),
          subst (λ x. SameWatch x s') (sym (some-inj is_s)) w,
        )
    | inr other ↦ (
      t,
      get-set-other b.sessions a a' s' (λ at. ground (arith, at, other)) ∙ e,
      SameWatch-refl t,
    )
  ];
}
  where
    some-inj : {A : Type 0} {x y : A} → some x ≡ some y → x ≡ y
    some-inj e = cc
