-- ===== src/Base/Table.antt =====
-- Facts about every number below a bound, checked by evaluating each.
use Prim.Native.Nat.{ℕ, zero, suc, ◌*◌, ◌/◌, ◌%◌, ◌<◌, bit_or}
use mathlib.Core.Path.{◌≡◌, refl}
use mathlib.Core.Bool.{Bool, true, ◌&&◌}
use native.Mathlib.Omega.{arith}
use fastlive.Base.Tests.{◌==◌, ==→eq}

all_below : ℕ → (ℕ → Bool) → Bool
all_below zero test = true
all_below (suc n) test = test n && all_below n test

all_below_sound :
    (n : ℕ) (test : ℕ → Bool) (x : ℕ) → all_below n test ≡ true → x < n → test x ≡ true
unfolding all_below
all_below_sound zero test x h lt = absurd (omega arith)
all_below_sound (suc n) test x h lt = ground (arith, all_below_sound n test x)

high_low_table : all_below 256 (λ b. bit_or (b / 64 * 64) (b % 64) == b) ≡ true
unfolding all_below
high_low_table = refl

-- Two bits above six: `|` is a sum.
pub bit_or-high_low : (b : ℕ) → b < 256 → bit_or (b / 64 * 64) (b % 64) ≡ b
bit_or-high_low b h = ==→eq _ b (all_below_sound 256 _ b high_low_table h)
