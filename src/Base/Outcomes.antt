-- ===== src/Base/Outcomes.antt =====
-- Outcomes that are a behaviour of Go: fuel did not run out.
use mathlib.Core.Path.{◌≡◌, refl}
use mathlib.Core.Bool.{Bool, true, false}
use fastlive.Base.Tests.{if◌then◌else◌}
use fastlive.Base.Failure.{Error, Outcome, ok, err, panic, ◌>>=◌}

-- `P` holds of the result, if there is one, and the fuel sufficed.
pub data Finishes {A : Type 0} (P : A → Type 0) : Outcome A → Type 0 where
  returns : {a : A} → P a → Finishes P (ok a)
  errs : {e : Error} → Finishes P (err e)
  breaks : Finishes P panic

-- Nothing is asked of the result.
abbrev pub Ends : {A : Type 0} → Outcome A → Type 0
Ends = Finishes (λ _. Unit {0})

module _ {A : Type 0} where
  pub Finishes-then :
      {B : Type 0} {P : A → Type 0} {Q : B → Type 0} {m : Outcome A} {f : A → Outcome B}
      → Finishes P m
      → ((a : A) → P a → Finishes Q (f a))
      → Finishes Q (m >>= f)
  Finishes-then (returns p) k = k _ p
  Finishes-then errs k = errs
  Finishes-then breaks k = breaks

  pub Finishes-if :
      {P : A → Type 0} (b : Bool) {m n : Outcome A}
      → (b ≡ true → Finishes P m)
      → (b ≡ false → Finishes P n)
      → Finishes P (if b then m else n)
  Finishes-if true h k = h refl
  Finishes-if false h k = k refl

  pub Finishes-weaken :
      {P Q : A → Type 0} {m : Outcome A} → Finishes P m → ((a : A) → P a → Q a) → Finishes Q m
  Finishes-weaken (returns p) k = returns (k _ p)
  Finishes-weaken errs k = errs
  Finishes-weaken breaks k = breaks
