-- ===== src/Server/Broker/Consistent.antt =====
-- The registry of sessions in every state that the server can reach.
use fastlive.Base.{ℕ, ◌%◌, ◌^◌, ◌≡◌, ◌≢◌, sym, ap, ◌∙◌, arith, [], ◌∷◌, ◌++◌}
use fastlive.Base.{length, true, false, none, some, inl, inr, ==→eq, ==→ne}
use fastlive.Base.{get_elem?, Bool-cases, ◌==◌}
use fastlive.Server.Table.{
  Key, load, put, delete, set_elem, same_key, same_key_refl, same_key-eq, load-put-same,
  load-put-other, load-delete-other, length-put-new, length-delete, get-set-same, get-set-other,
  get-push-last, get-push-other, get-push-keep, Distinct, put-Distinct, delete-Distinct,
  load-delete-same,
}
use fastlive.Server.Session.{Session, finished}
use fastlive.Server.Broker.{Broker, write_session, register, del_session}

-- A session is in the map until its watcher has finished, every entry of the map is a session with
-- that key, and the count is the number of entries.
pub record IsConsistent (b : Broker) : Type 0 where
  pub live :
      (a : ℕ) (s : Session)
      → get_elem? b.sessions a ≡ some s
      → s.watch ≢ finished
      → load s.stream_key b.session_map ≡ some a
  pub entries :
      (k : Key) (a : ℕ)
      → load k b.session_map ≡ some a
      → (s : Session) × (get_elem? b.sessions a ≡ some s) × (s.stream_key ≡ k)
  pub distinct : Distinct b.session_map
  pub count : b.session_total ≡ length b.session_map % 2 ^ 32

pub some-eq : {A : Type 0} {x y : A} → some x ≡ some y → x ≡ y
some-eq e = cc

pub none-some : {A : Type 0} {x : A} → none ≡ some x → ⊥
none-some e = cc

pub write_session-IsConsistent :
    (b : Broker) (a : ℕ) (s s' : Session)
    → IsConsistent b
    → get_elem? b.sessions a ≡ some s
    → s'.stream_key ≡ s.stream_key
    → (s'.watch ≢ finished → s.watch ≢ finished)
    → IsConsistent (write_session a s' b)
write_session-IsConsistent b a s s' i at_a same_key' watched = record {
  live = λ n t e w. elim (Bool-cases (a == n)) [
    | inl here ↦
        let an : a ≡ n = ==→eq a n here in
        let st : s' ≡ t = some-eq (
          sym (get-set-same b.sessions a s' at_a)
          ∙ ap (λ m. get_elem? (set_elem b.sessions a s') m) an
          ∙ e) in
        ap (λ k. load k b.session_map) (sym (ap (λ t. t.stream_key) st) ∙ same_key')
        ∙ i.live a s at_a (watched (λ f. w (sym (ap (λ t. t.watch) st) ∙ f)))
        ∙ ap some an
    | inr other ↦ i.live n t (sym (get-set-other b.sessions a n s' (==→ne a n other)) ∙ e) w
  ];
  entries = λ k n e.
      let (t, at_n, key) = i.entries k n e in
      elim (Bool-cases (a == n)) [
        | inl here ↦
            let an : a ≡ n = ==→eq a n here in
            let st : s ≡ t = some-eq (sym at_a ∙ ap (λ m. get_elem? b.sessions m) an ∙ at_n) in
            (
              s',
              ap (λ m. get_elem? (set_elem b.sessions a s') m) (sym an)
                  ∙ get-set-same b.sessions a s' at_a,
              same_key' ∙ ap (λ t. t.stream_key) st ∙ key,
            )
        | inr other ↦ (t, get-set-other b.sessions a n s' (==→ne a n other) ∙ at_n, key)
      ];
  distinct = i.distinct;
  count = i.count;
}

pub register-IsConsistent :
    (key : Key) (s : Session) (b : Broker)
    → IsConsistent b
    → load key b.session_map ≡ none
    → s.stream_key ≡ key
    → IsConsistent (register key s b)
register-IsConsistent key s b i new same = record {
  live = λ n t e w. elim (Bool-cases (n == length b.sessions)) [
    | inl here ↦
        let nl : n ≡ length b.sessions = ==→eq n _ here in
        let st : s ≡ t = some-eq (
          sym (get-push-last b.sessions s)
          ∙ ap (λ m. get_elem? (b.sessions ++ (s ∷ [])) m) (sym nl)
          ∙ e) in
        ap (λ k. load k (put key (length b.sessions) b.session_map))
          (sym (ap (λ t. t.stream_key) st) ∙ same)
        ∙ load-put-same key (length b.sessions) b.session_map
        ∙ ap some (sym nl)
    | inr other ↦
        let old : load t.stream_key b.session_map ≡ some n =
          i.live n t (sym (get-push-other b.sessions s n (==→ne n _ other)) ∙ e) w in
        elim (Bool-cases (same_key key t.stream_key)) [
          | inl clash ↦ absurd (
              none-some (
                sym new
                ∙ ap (λ k. load k b.session_map) (same_key-eq key t.stream_key clash)
                ∙ old))
          | inr apart ↦
              load-put-other key t.stream_key (length b.sessions) b.session_map apart ∙ old
        ]
  ];
  entries = λ k n e. elim (Bool-cases (same_key key k)) [
    | inl here ↦
        let kk : key ≡ k = same_key-eq key k here in
        let nl : length b.sessions ≡ n = some-eq (
          sym (load-put-same key (length b.sessions) b.session_map)
          ∙ ap (λ k. load k (put key (length b.sessions) b.session_map)) kk
          ∙ e) in
        (
          s,
          ap (λ m. get_elem? (b.sessions ++ (s ∷ [])) m) (sym nl) ∙ get-push-last b.sessions s,
          same ∙ kk,
        )
    | inr other ↦
        let (t, at_n, eq) =
          i.entries k n (sym (load-put-other key k (length b.sessions) b.session_map other) ∙ e) in
        (t, get-push-keep b.sessions s n at_n, eq)
  ];
  distinct = put-Distinct key (length b.sessions) b.session_map i.distinct;
  count = omega (arith, i.count, length-put-new key (length b.sessions) b.session_map new);
}

pub del_session-IsConsistent :
    (b : Broker) (a : ℕ) (s s' : Session)
    → IsConsistent b
    → get_elem? b.sessions a ≡ some s
    → s.watch ≢ finished
    → s'.watch ≡ finished
    → IsConsistent (del_session s.stream_key (write_session a s' b))
unfolding del_session
del_session-IsConsistent b a s s' i at_a watched over = record {
  live = λ n t e w. elim (Bool-cases (a == n)) [
    | inl here ↦
        let an : a ≡ n = ==→eq a n here in
        let st : s' ≡ t = some-eq (
          sym (get-set-same b.sessions a s' at_a)
          ∙ ap (λ m. get_elem? (set_elem b.sessions a s') m) an
          ∙ e) in
        absurd (w (sym (ap (λ t. t.watch) st) ∙ over))
    | inr other ↦
        let ne : a ≢ n = ==→ne a n other in
        let old : load t.stream_key b.session_map ≡ some n =
          i.live n t (sym (get-set-other b.sessions a n s' ne) ∙ e) w in
        elim (Bool-cases (same_key s.stream_key t.stream_key)) [
          | inl clash ↦ absurd (
              ne (
                some-eq (
                  sym gone
                  ∙ ap (λ k. load k b.session_map) (same_key-eq s.stream_key t.stream_key clash)
                  ∙ old)))
          | inr apart ↦ load-delete-other s.stream_key t.stream_key b.session_map apart ∙ old
        ]
  ];
  entries = λ k n e. elim (Bool-cases (same_key s.stream_key k)) [
    | inl here ↦ absurd (
        none-some (
          sym (load-delete-same s.stream_key b.session_map i.distinct)
          ∙ ap (λ k. load k (delete s.stream_key b.session_map)) (same_key-eq s.stream_key k here)
          ∙ e))
    | inr other ↦
        let old : load k b.session_map ≡ some n =
          sym (load-delete-other s.stream_key k b.session_map other) ∙ e in
        let (t, at_n, eq) = i.entries k n old in
        let ne : a ≢ n =
          λ an. clash (some-eq (sym at_a ∙ ap (λ m. get_elem? b.sessions m) an ∙ at_n)) eq other in
        (t, get-set-other b.sessions a n s' ne ∙ at_n, eq)
  ];
  distinct = delete-Distinct s.stream_key b.session_map i.distinct;
  count = omega (arith, i.count, length-delete s.stream_key b.session_map gone);
}
  where
    gone : load s.stream_key b.session_map ≡ some a
    gone = i.live a s at_a watched

    clash : {t : Session} {k : Key} → s ≡ t → t.stream_key ≡ k → same_key s.stream_key k ≡ false → ⊥
    clash st eq other =
        let e : true ≡ false =
          sym (same_key_refl s.stream_key)
          ∙ ap (λ k. same_key s.stream_key k) (ap (λ t. t.stream_key) st ∙ eq)
          ∙ other in
        ground (arith, e)
