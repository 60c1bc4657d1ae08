-- ===== src/Base/Division.antt =====
-- Division by a variable.
use Prim.Native.Nat.{ℕ, suc, ◌+◌, ◌*◌, ◌/◌, ◌%◌, ◌≤◌, ◌<◌}
use mathlib.Core.Path.{◌≡◌, ap}
use mathlib.Core.Logic.{◌≢◌, ◌⊎◌, inl, inr}
use native.Mathlib.Nat.{div-add-mod', mod-lt}
use native.Mathlib.Decide.{dec_lt}
use native.Mathlib.Omega.{arith}

lt-mul : (a b n : ℕ) → a < b → a * n + n ≤ b * n
lt-mul a b n h = grind arith

-- The quotient is the only number whose multiple is next below.
pub div_unique : (n m q : ℕ) → q * m ≤ n → n < q * m + m → n / m ≡ q
div_unique n m q lo hi = elim (dec_lt (n / m) q) [
  | yes less ↦
      absurd
        (omega (arith, div-add-mod' n m, mod-lt n {m = m} (omega arith), lt-mul (n / m) q m less))
  | no ge ↦ elim (dec_lt q (n / m)) [
    | yes more ↦ absurd (omega (arith, div-add-mod' n m, lt-mul q (n / m) m more))
    | no le ↦ omega arith
  ]
]

-- The last of the pieces of size `m` that cover `n`, if `i` whole ones come before it.
pub last_piece :
    (n m i : ℕ)
    → 0 < m
    → i * m < n
    → n ≤ i * m + m
    → ((n / m ≡ i) × (n % m ≢ 0)) ⊎ ((n / m ≡ suc i) × (n % m ≡ 0))
last_piece n m i h lo hi = elim (dec_lt n (i * m + m)) [
  | yes short ↦
      let q : n / m ≡ i = div_unique n m i (omega arith) short in
      inl (q, λ z. omega (arith, div-add-mod' n m, ap (λ (k : ℕ). k * m) q))
  | no exact ↦
      let q : n / m ≡ suc i = div_unique n m (suc i) (omega arith) (omega arith) in
      inr (q, omega (arith, div-add-mod' n m, ap (λ (k : ℕ). k * m) q))
]

pub lt-suc_div-mul : (n m : ℕ) → 0 < m → n < (n / m + 1) * m
lt-suc_div-mul n m h = omega (arith, div-add-mod' n m, mod-lt n {m = m} h)
