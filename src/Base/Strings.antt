-- ===== src/Base/Strings.antt =====
-- Strings and byte slices, compared.
use Prim.Native.Nat.{ℕ}
use Prim.Native.Char.{code}
use Prim.Native.String.{String}
use mathlib.Core.Path.{◌≡◌, refl, sym, ap, ap₂, ◌∙◌}
use mathlib.Core.Logic.{inl, inr}
use mathlib.Core.Bool.{Bool, true, false, ◌&&◌}
use mathlib.Core.List.{List, [], ◌∷◌}
use native.Mathlib.Omega.{arith}
use fastlive.Base.Tests.{◌==◌, eq→==, Bool-cases}

-- A string, as the list of its bytes.
abbrev pub Key : Type 0
Key = List ℕ

-- The bytes of an ASCII text.
abbrev pub codes : String → Key
codes String.[] = []
codes (String.◌∷◌ c s) = code c ∷ codes s

abbrev pub same_key : Key → Key → Bool
same_key [] [] = true
same_key [] (b ∷ bs) = false
same_key (a ∷ as_) [] = false
same_key (a ∷ as_) (b ∷ bs) = a == b && same_key as_ bs

pub same_key_refl : (k : Key) → same_key k k ≡ true
same_key_refl [] = refl
same_key_refl (a ∷ k) = ground (arith, same_key_refl k, eq→== a a refl)

pub same_key-eq : (j k : Key) → same_key j k ≡ true → j ≡ k
same_key-eq [] [] e = refl
same_key-eq [] (b ∷ bs) e = ground (arith, e)
same_key-eq (a ∷ as_) [] e = ground (arith, e)
same_key-eq (a ∷ as_) (b ∷ bs) e =
    let h : a ≡ b = ground (arith, e) in ap₂ ◌∷◌ h (same_key-eq as_ bs (ground (arith, e)))

pub same_key-sym : (j k : Key) → same_key j k ≡ false → same_key k j ≡ false
same_key-sym j k h = elim (Bool-cases (same_key k j)) [
  | inl same ↦ absurd (
      let e : true ≡ false =
        sym (same_key_refl k) ∙ ap (λ x. same_key x k) (same_key-eq k j same) ∙ h in
      ground (arith, e))
  | inr other ↦ other
]
