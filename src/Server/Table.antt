-- ===== src/Server/Table.antt =====
-- sync.Map with strings as keys: the methods that the server uses, on lists of keys and values.
use fastlive.Base.{ℕ, suc, zero, ◌≡◌, refl, sym, ap, ◌∙◌, ◌≢◌, arith, List, [], ◌∷◌, length}
use fastlive.Base.{false, Bool-cases, Option, none, some, if◌then◌else◌, inl, inr}
pub use fastlive.Base.{Key, same_key, same_key_refl, same_key-eq, same_key-sym}
use fastlive.Base.{get_elem?, ◌++◌}

module _ {ℓ} {V : Type ℓ} where
  -- Load
  abbrev pub load : Key → List (Key × V) → Option V
  load k [] = none
  load k ((j, v) ∷ t) = if same_key j k then some v else load k t

  -- Store
  abbrev pub put : Key → V → List (Key × V) → List (Key × V)
  put k v [] = (k, v) ∷ []
  put k v ((j, w) ∷ t) = if same_key j k then (k, v) ∷ t else (j, w) ∷ put k v t

  -- Delete
  abbrev pub delete : Key → List (Key × V) → List (Key × V)
  delete k [] = []
  delete k ((j, w) ∷ t) = if same_key j k then t else (j, w) ∷ delete k t

  pub load-put-same : (k : Key) (v : V) (t : List (Key × V)) → load k (put k v t) ≡ some v
  load-put-same k v [] = rw (same_key_refl k) refl
  load-put-same k v ((j, w) ∷ t) = elim (Bool-cases (same_key j k)) [
    | inl same ↦ rw (same, same_key_refl k) refl
    | inr other ↦ rw (other, other) (load-put-same k v t)
  ]

  pub load-put-other :
      (k l : Key) (v : V) (t : List (Key × V))
      → same_key k l ≡ false
      → load l (put k v t) ≡ load l t
  load-put-other k l v [] h = rw h refl
  load-put-other k l v ((j, w) ∷ t) h = elim (Bool-cases (same_key j k)) [
    | inl same ↦
        let e : same_key j l ≡ false = ap (λ x. same_key x l) (same_key-eq j k same) ∙ h in
        rw (same, h, e) refl
    | inr other ↦ elim (Bool-cases (same_key j l)) [
      | inl found ↦ rw (other, found) refl
      | inr missed ↦ rw (other, missed) (load-put-other k l v t h)
    ]
  ]

  pub load-delete-other :
      (k l : Key) (t : List (Key × V)) → same_key k l ≡ false → load l (delete k t) ≡ load l t
  load-delete-other k l [] h = refl
  load-delete-other k l ((j, w) ∷ t) h = elim (Bool-cases (same_key j k)) [
    | inl same ↦
        let e : same_key j l ≡ false = ap (λ x. same_key x l) (same_key-eq j k same) ∙ h in
        rw (same, e) refl
    | inr other ↦ elim (Bool-cases (same_key j l)) [
      | inl found ↦ rw (other, found) refl
      | inr missed ↦ rw (other, missed) (load-delete-other k l t h)
    ]
  ]

  pub length-put-new :
      (k : Key) (v : V) (t : List (Key × V)) → load k t ≡ none → length (put k v t) ≡ suc (length t)
  length-put-new k v [] h = refl
  length-put-new k v ((j, w) ∷ t) h = elim (Bool-cases (same_key j k)) [
    | inl same ↦ ground (arith, same, h)
    | inr other ↦ rw other (ap suc (length-put-new k v t (ground (arith, other, h))))
  ]

  pub length-delete :
      (k : Key) (t : List (Key × V)) {v : V}
      → load k t ≡ some v
      → suc (length (delete k t)) ≡ length t
  length-delete k [] {v} h = ground (arith, h)
  length-delete k ((j, w) ∷ t) {v} h = elim (Bool-cases (same_key j k)) [
    | inl same ↦ rw same refl
    | inr other ↦ rw other (ap suc (length-delete k t {v = v} (ground (arith, other, h))))
  ]

  -- No key stands twice in the list.
  abbrev pub Distinct : List (Key × V) → Type ℓ
  Distinct [] = Unit {ℓ}
  Distinct ((k, v) ∷ t) = (load k t ≡ none) × Distinct t

  pub put-Distinct : (k : Key) (v : V) (t : List (Key × V)) → Distinct t → Distinct (put k v t)
  put-Distinct k v [] d = (refl, tt)
  put-Distinct k v ((j, w) ∷ t) (d, ds) = elim (Bool-cases (same_key j k)) [
    | inl same ↦ rw same (ap (λ x. load x t) (sym (same_key-eq j k same)) ∙ d, ds)
    | inr other ↦
        let apart : same_key k j ≡ false = same_key-sym j k other in
        rw other (load-put-other k j v t apart ∙ d, put-Distinct k v t ds)
  ]

  pub load-delete-same : (k : Key) (t : List (Key × V)) → Distinct t → load k (delete k t) ≡ none
  load-delete-same k [] d = refl
  load-delete-same k ((j, w) ∷ t) (d, ds) = elim (Bool-cases (same_key j k)) [
    | inl same ↦ rw same (ap (λ x. load x t) (sym (same_key-eq j k same)) ∙ d)
    | inr other ↦ rw (other, other) (load-delete-same k t ds)
  ]

  pub delete-Distinct : (k : Key) (t : List (Key × V)) → Distinct t → Distinct (delete k t)
  delete-Distinct k [] d = tt
  delete-Distinct k ((j, w) ∷ t) (d, ds) = elim (Bool-cases (same_key j k)) [
    | inl same ↦ rw same ds
    | inr other ↦
        rw other (load-delete-other k j t (same_key-sym j k other) ∙ d, delete-Distinct k t ds)
  ]

-- Memory: the objects at the addresses 0, 1, and so on.
module _ {ℓ} {A : Type ℓ} where
  abbrev pub set_elem : List A → ℕ → A → List A
  set_elem [] n y = []
  set_elem (x ∷ xs) zero y = y ∷ xs
  set_elem (x ∷ xs) (suc n) y = x ∷ set_elem xs n y

  pub get-set-same :
      (xs : List A) (n : ℕ) (y : A) {x : A}
      → get_elem? xs n ≡ some x
      → get_elem? (set_elem xs n y) n ≡ some y
  get-set-same [] n y h = ground (arith, h)
  get-set-same (x ∷ xs) zero y h = refl
  get-set-same (x ∷ xs) (suc n) y h = get-set-same xs n y h

  pub get-set-other :
      (xs : List A) (n m : ℕ) (y : A) → n ≢ m → get_elem? (set_elem xs n y) m ≡ get_elem? xs m
  get-set-other [] n m y h = refl
  get-set-other (x ∷ xs) zero zero y h = absurd (h refl)
  get-set-other (x ∷ xs) zero (suc m) y h = refl
  get-set-other (x ∷ xs) (suc n) zero y h = refl
  get-set-other (x ∷ xs) (suc n) (suc m) y h = get-set-other xs n m y (λ e. h (ap suc e))

  pub get-push-last : (xs : List A) (y : A) → get_elem? (xs ++ (y ∷ [])) (length xs) ≡ some y
  get-push-last [] y = refl
  get-push-last (x ∷ xs) y = get-push-last xs y

  pub get-push-other :
      (xs : List A) (y : A) (n : ℕ) → n ≢ length xs → get_elem? (xs ++ (y ∷ [])) n ≡ get_elem? xs n
  get-push-other [] y zero h = absurd (h refl)
  get-push-other [] y (suc n) h = refl
  get-push-other (x ∷ xs) y zero h = refl
  get-push-other (x ∷ xs) y (suc n) h = get-push-other xs y n (λ e. h (ap suc e))

  pub get-push-keep :
      (xs : List A) (y : A) (n : ℕ) {x : A}
      → get_elem? xs n ≡ some x
      → get_elem? (xs ++ (y ∷ [])) n ≡ some x
  get-push-keep [] y n h = ground (arith, h)
  get-push-keep (x ∷ xs) y zero h = h
  get-push-keep (x ∷ xs) y (suc n) h = get-push-keep xs y n h
