-- ===== src/Connection/Steps.antt =====
-- How a step of a connection ends, and what a step that reads leaves of the connection.
use fastlive.Base.{ℕ, ◌+◌, ◌≤◌, ◌≡◌, refl, ◌∙◌, arith}
use fastlive.Base.{List, length, drop, ◌≢◌, true, false}
use fastlive.Base.{Outcome, ok, err, panic, stuck, Bool, leb, ◌==◌}
use fastlive.Base.{length-drop, length-take, if◌then◌else◌}
use fastlive.Base.{Error}
use fastlive.Connection.{Connection, read, M, then_with, lift}

-- What holds of a step's outcome: `P` of its result, `X` if it panics; it does not run out of fuel.
pub data Ensures (X : Type 0) {A : Type 0} (P : A → Connection → Type 0)
    : Outcome (A × Connection) → Type 0 where
  gives : {a : A} {c : Connection} → P a c → Ensures X P (ok (a, c))
  fails : {e : Error} → Ensures X P (err e)
  panics : X → Ensures X P panic

module _ {X : Type 0} {A : Type 0} where
  pub Ensures-then :
      {B : Type 0} {P : A → Connection → Type 0} {Q : B → Connection → Type 0}
      {m : Outcome (A × Connection)} {f : A → M B}
      → Ensures X P m
      → ((a : A) (c : Connection) → P a c → Ensures X Q (f a c))
      → Ensures X Q (then_with m f)
  Ensures-then (gives p) k = k _ _ p
  Ensures-then fails k = fails
  Ensures-then (panics x) k = panics x

  pub Ensures-then_eq :
      {B : Type 0} {P : A → Connection → Type 0} {Q : B → Connection → Type 0}
      (m : Outcome (A × Connection)) {f : A → M B}
      → Ensures X P m
      → ((a : A) (c : Connection) → m ≡ ok (a, c) → P a c → Ensures X Q (f a c))
      → Ensures X Q (then_with m f)
  Ensures-then_eq (ok _) (gives p) k = k _ _ refl p
  Ensures-then_eq (err _) fails k = fails
  Ensures-then_eq panic (panics x) k = panics x
  Ensures-then_eq stuck x k = elim x [ ]

  pub Ensures-if :
      {P : A → Connection → Type 0} (b : Bool) {m n : Outcome (A × Connection)}
      → (b ≡ true → Ensures X P m)
      → (b ≡ false → Ensures X P n)
      → Ensures X P (if b then m else n)
  Ensures-if true h k = h refl
  Ensures-if false h k = k refl

  pub Ensures-if_at :
      {P : A → Connection → Type 0} (b : Bool) (m n : M A) (c : Connection)
      → (b ≡ true → Ensures X P (m c))
      → (b ≡ false → Ensures X P (n c))
      → Ensures X P ((if b then m else n) c)
  Ensures-if_at true m n c h k = h refl
  Ensures-if_at false m n c h k = k refl

-- A pure step, which leaves the connection.
pub Ensures-lift :
    {A : Type 0} (X : Type 0) (m : Outcome A) (c : Connection)
    → m ≢ panic
    → m ≢ stuck
    → Ensures X (λ a c'. (m ≡ ok a) × (c' ≡ c)) (lift m c)
Ensures-lift X (ok a) c p q = gives (refl, refl)
Ensures-lift X (err e) c p q = fails
Ensures-lift X panic c p q = absurd (p refl)
Ensures-lift X stuck c p q = absurd (q refl)

-- What a step that reads leaves of the connection: the streams, the chunk size, and at most the
-- input that there was.
pub record Later (c c' : Connection) : Type 0 where
  pub streams : c'.messages ≡ c.messages
  pub size : c'.remote_chunk_size ≡ c.remote_chunk_size
  pub input_le : length c'.input ≤ length c.input

pub le-drop : (n : ℕ) (xs : List ℕ) → length (drop n xs) ≤ length xs
le-drop n xs = ground (arith, length-drop n xs)

pub Later-refl : (c : Connection) → Later c c
Later-refl c = record { streams = refl; size = refl; input_le = omega arith }

pub Later-trans : {c d e : Connection} → Later c d → Later d e → Later c e
Later-trans h k = record {
  streams = k.streams ∙ h.streams;
  size = k.size ∙ h.size;
  input_le = omega (arith, h, k);
}

pub Later-of_eq : {c d : Connection} → d ≡ c → Later c d
Later-of_eq {c} e = rw e (Later-refl c)

pub Later-drop : (n : ℕ) (c : Connection) → Later c (record c { input = drop n c.input })
Later-drop n c = record { streams = refl; size = refl; input_le = le-drop n c.input }

module _ (X : Type 0) where
  pub read-Later :
      (n : ℕ) (c : Connection)
      → Ensures X
          (λ bytes c'. Later c c' × (length bytes ≡ n) × (length c'.input + n ≡ length c.input))
          (read n c)
  unfolding read
  read-Later n c =
      Ensures-if (leb n (length c.input))
        (λ e. gives (ground (arith, length-drop n c.input, length-take n c.input)))
        (λ e. Ensures-if (length c.input == 0) (λ _. fails) (λ _. fails))
