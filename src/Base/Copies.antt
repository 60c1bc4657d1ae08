-- ===== src/Base/Copies.antt =====
-- What a list holds after a write into its middle.
use Prim.Native.Nat.{ℕ, zero, suc, ◌+◌, ◌-◌, ◌≤◌}
use mathlib.Core.Path.{◌≡◌, refl, sym, ap, ◌∙◌}
use mathlib.Core.List.{List, [], ◌∷◌, ◌++◌}
use native.Mathlib.Omega.{arith}
use fastlive.Base.Lists.{
  length, take, drop, overwrite, take-append, drop-append, length-take, drop-drop, length-drop,
  take-nil,
}

module _ {ℓ} {A : Type ℓ} where
  pub overwrite-parts :
      (p : List A) (i : ℕ) (bs : List A)
      → i ≤ length p
      → overwrite p i bs ≡ take i p ++ (bs ++ drop (i + length bs) p)
  overwrite-parts p zero bs h =
      let e : length bs ≡ zero + length bs = omega arith in ap (λ n. bs ++ drop n p) e
  overwrite-parts [] (suc i) bs h = absurd (omega arith)
  overwrite-parts (x ∷ p) (suc i) bs h =
      let e : suc (i + length bs) ≡ suc i + length bs = omega arith in
      ap (λ l. x ∷ l) (overwrite-parts p i bs (omega arith))
      ∙ ap (λ n. x ∷ (take i p ++ (bs ++ drop n (x ∷ p)))) e

  pub take-prefix : (n : ℕ) (xs ys : List A) → n ≤ length xs → take n (xs ++ ys) ≡ take n xs
  take-prefix zero xs ys h = refl
  take-prefix (suc n) [] ys h = absurd (omega arith)
  take-prefix (suc n) (x ∷ xs) ys h = ap (λ l. x ∷ l) (take-prefix n xs ys (omega arith))

  pub drop-prefix : (n : ℕ) (xs ys : List A) → n ≤ length xs → drop n (xs ++ ys) ≡ drop n xs ++ ys
  drop-prefix zero xs ys h = refl
  drop-prefix (suc n) [] ys h = absurd (omega arith)
  drop-prefix (suc n) (x ∷ xs) ys h = drop-prefix n xs ys (omega arith)

  pub take-take : (n m : ℕ) (xs : List A) → n ≤ m → take n (take m xs) ≡ take n xs
  take-take zero m xs h = refl
  take-take (suc n) zero xs h = absurd (omega arith)
  take-take (suc n) (suc m) [] h = refl
  take-take (suc n) (suc m) (x ∷ xs) h = ap (λ l. x ∷ l) (take-take n m xs (omega arith))

  pub drop-take : (n m : ℕ) (xs : List A) → drop n (take m xs) ≡ take (m - n) (drop n xs)
  drop-take zero m xs = let e : m ≡ m - zero = omega arith in ap (λ k. take k xs) e
  drop-take (suc n) zero xs =
      let e : zero ≡ zero - suc n = omega arith in ap (λ k. take k (drop (suc n) xs)) e
  drop-take (suc n) (suc m) [] = sym (take-nil (suc m - suc n))
  drop-take (suc n) (suc m) (x ∷ xs) =
      let e : m - n ≡ suc m - suc n = omega arith in
      drop-take n m xs ∙ ap (λ k. take k (drop n xs)) e

  module _ (p : List A) (i : ℕ) (bs : List A) (h : i + length bs ≤ length p) where
    length-front : i ≡ length (take i p)
    length-front = omega (arith, length-take i p)

    -- In front of the write,
    pub take-overwrite : take i (overwrite p i bs) ≡ take i p
    take-overwrite =
        ap (take i) (overwrite-parts p i bs (omega arith))
        ∙ ap (λ n. take n (take i p ++ (bs ++ drop (i + length bs) p))) length-front
        ∙ take-append (take i p) _

    -- from it on,
    pub drop-overwrite : drop i (overwrite p i bs) ≡ bs ++ drop (i + length bs) p
    drop-overwrite =
        ap (drop i) (overwrite-parts p i bs (omega arith))
        ∙ ap (λ n. drop n (take i p ++ (bs ++ drop (i + length bs) p))) length-front
        ∙ drop-append (take i p) _

    -- and behind it.
    pub drop-overwrite_end : drop (i + length bs) (overwrite p i bs) ≡ drop (i + length bs) p
    drop-overwrite_end =
        sym (drop-drop i (length bs) (overwrite p i bs))
        ∙ ap (drop (length bs)) drop-overwrite
        ∙ drop-append bs _

    -- A window in front of the write.
    pub window-overwrite :
        (a n : ℕ) → a + n ≤ i → take n (drop a (overwrite p i bs)) ≡ take n (drop a p)
    window-overwrite a n k =
        ap (λ l. take n (drop a l)) (overwrite-parts p i bs (omega arith))
        ∙ ap (take n)
            (drop-prefix a (take i p) (bs ++ drop (i + length bs) p) (omega (arith, length-front)))
        ∙ take-prefix n (drop a (take i p)) (bs ++ drop (i + length bs) p)
            (omega (arith, length-front, length-drop a (take i p)))
        ∙ ap (take n) (drop-take a i p)
        ∙ take-take n (i - a) (drop a p) (omega arith)
