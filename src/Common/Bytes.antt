-- ===== src/Common/Bytes.antt =====
-- The two conversions of common.go are inverse to one another up to four bytes.
use fastlive.Base.{◌/◌, ℕ, zero, suc, ◌+◌, ◌*◌, ◌%◌, ◌^◌, ◌≤◌, ◌<◌, ◌≡◌, refl, ap, arith}
use fastlive.Base.{Bool, true, false, List, [], ◌∷◌, length, All}
use fastlive.Common.{uint_as_bytes, bytes_as_uint32}
use fastlive.Common.{uint_bytes_big, uint_bytes_little, bytes_uint_big, bytes_uint_little}

abbrev pub IsByte : ℕ → Type 0
IsByte b = b < 256

length-uint_bytes_big : (val n : ℕ) → length (uint_bytes_big val n) ≡ n
unfolding uint_bytes_big
length-uint_bytes_big val zero = refl
length-uint_bytes_big val (suc n) = ap suc (length-uint_bytes_big val n)

length-uint_bytes_little : (val n : ℕ) → length (uint_bytes_little val n) ≡ n
unfolding uint_bytes_little
length-uint_bytes_little val zero = refl
length-uint_bytes_little val (suc n) = ap suc (length-uint_bytes_little (val / 2 ^ 8) n)

-- UintAsBytes fills the whole buffer.
pub length-uint_as_bytes : (val n : ℕ) (big : Bool) → length (uint_as_bytes val n big) ≡ n
unfolding uint_as_bytes
length-uint_as_bytes val n true = length-uint_bytes_big val n
length-uint_as_bytes val n false = length-uint_bytes_little val n

uint_bytes_big-IsByte : (val n : ℕ) → All IsByte (uint_bytes_big val n)
unfolding uint_bytes_big
uint_bytes_big-IsByte val zero = tt
uint_bytes_big-IsByte val (suc n) = (omega arith, uint_bytes_big-IsByte val n)

uint_bytes_little-IsByte : (val n : ℕ) → All IsByte (uint_bytes_little val n)
unfolding uint_bytes_little
uint_bytes_little-IsByte val zero = tt
uint_bytes_little-IsByte val (suc n) = (omega arith, uint_bytes_little-IsByte (val / 2 ^ 8) n)

pub uint_as_bytes-IsByte : (val n : ℕ) (big : Bool) → All IsByte (uint_as_bytes val n big)
unfolding uint_as_bytes
uint_as_bytes-IsByte val n true = uint_bytes_big-IsByte val n
uint_as_bytes-IsByte val n false = uint_bytes_little-IsByte val n

-- Reading back what UintAsBytes wrote into up to four bytes gives the value's low bits, in both
-- byte orders.
pub bytes_as_uint32-uint_as_bytes :
    (val n : ℕ) (big : Bool)
    → n ≤ 4
    → bytes_as_uint32 (uint_as_bytes val n big) big ≡ val % 2 ^ (8 * n)
unfolding uint_as_bytes bytes_as_uint32 uint_bytes_big uint_bytes_little bytes_uint_big
    bytes_uint_little
bytes_as_uint32-uint_as_bytes val zero true h = omega arith
bytes_as_uint32-uint_as_bytes val zero false h = omega arith
bytes_as_uint32-uint_as_bytes val (suc zero) true h = omega arith
bytes_as_uint32-uint_as_bytes val (suc zero) false h = omega arith
bytes_as_uint32-uint_as_bytes val (suc (suc zero)) true h = omega arith
bytes_as_uint32-uint_as_bytes val (suc (suc zero)) false h = omega arith
bytes_as_uint32-uint_as_bytes val (suc (suc (suc zero))) true h = omega arith
bytes_as_uint32-uint_as_bytes val (suc (suc (suc zero))) false h = omega arith
bytes_as_uint32-uint_as_bytes val (suc (suc (suc (suc zero)))) true h = omega arith
bytes_as_uint32-uint_as_bytes val (suc (suc (suc (suc zero)))) false h = omega arith
bytes_as_uint32-uint_as_bytes val (suc (suc (suc (suc (suc n))))) big h = absurd (omega arith)

bytes_uint_big-lt : (ret : ℕ) (bs : List ℕ) → ret < 2 ^ 32 → bytes_uint_big ret bs < 2 ^ 32
unfolding bytes_uint_big
bytes_uint_big-lt ret [] h = h
bytes_uint_big-lt ret (b ∷ bs) h =
    bytes_uint_big-lt ((ret * 2 ^ 8 % 2 ^ 32 + b) % 2 ^ 32) bs (omega arith)

bytes_uint_little-lt :
    (ret i : ℕ) (bs : List ℕ) → ret < 2 ^ 32 → bytes_uint_little ret i bs < 2 ^ 32
unfolding bytes_uint_little
bytes_uint_little-lt ret i [] h = h
bytes_uint_little-lt ret i (b ∷ bs) h =
    bytes_uint_little-lt ((ret + b * 2 ^ (i * 8) % 2 ^ 32) % 2 ^ 32) (i + 1) bs (omega arith)

pub bytes_as_uint32-lt : (bs : List ℕ) (big : Bool) → bytes_as_uint32 bs big < 2 ^ 32
unfolding bytes_as_uint32
bytes_as_uint32-lt bs true = bytes_uint_big-lt 0 bs (omega arith)
bytes_as_uint32-lt bs false = bytes_uint_little-lt 0 0 bs (omega arith)
