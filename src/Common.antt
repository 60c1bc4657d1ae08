-- ===== src/Common.antt =====
-- pkg/rtmp/common/common.go: unsigned integers as bytes, in both byte orders.
-- A byte slice is a list of numbers below 256, a uint32 a number below 2 ^ 32.
pub mod Bytes
use fastlive.Base.{ℕ, zero, suc, ◌+◌, ◌*◌, ◌/◌, ◌%◌, ◌^◌, Bool, List, [], ◌∷◌, if◌then◌else◌}

-- The big-endian loop of UintAsBytes: with `k + 1` bytes left the shift is `k << 3`.
unfoldable pub uint_bytes_big : ℕ → ℕ → List ℕ
uint_bytes_big val zero = []
uint_bytes_big val (suc k) = (val / 2 ^ (k * 8) % 256) ∷ uint_bytes_big val k

-- The little-endian loop shifts `val` itself.
unfoldable pub uint_bytes_little : ℕ → ℕ → List ℕ
uint_bytes_little val zero = []
uint_bytes_little val (suc k) = (val % 256) ∷ uint_bytes_little (val / 2 ^ 8) k

-- What UintAsBytes(val, buffer, big_endian) leaves in a buffer of `n` bytes.
unfoldable pub uint_as_bytes : ℕ → ℕ → Bool → List ℕ
uint_as_bytes val n big_endian =
    if big_endian then uint_bytes_big val n else uint_bytes_little val n

-- `ret<<8 + uint32(b)` on uint32.
unfoldable pub bytes_uint_big : ℕ → List ℕ → ℕ
bytes_uint_big ret [] = ret
bytes_uint_big ret (b ∷ bs) = bytes_uint_big ((ret * 2 ^ 8 % 2 ^ 32 + b) % 2 ^ 32) bs

-- `ret += uint32(b) << uint32(i*8)` on uint32.
unfoldable pub bytes_uint_little : ℕ → ℕ → List ℕ → ℕ
bytes_uint_little ret i [] = ret
bytes_uint_little ret i (b ∷ bs) =
    bytes_uint_little ((ret + b * 2 ^ (i * 8) % 2 ^ 32) % 2 ^ 32) (i + 1) bs

unfoldable pub bytes_as_uint32 : List ℕ → Bool → ℕ
bytes_as_uint32 buffer big_endian =
    if big_endian then bytes_uint_big 0 buffer else bytes_uint_little 0 0 buffer

-- FmtToMessageHdrSize: 11, 7, 3, 0.
abbrev pub fmt_to_message_hdr_size : ℕ → ℕ
fmt_to_message_hdr_size zero = 11
fmt_to_message_hdr_size (suc zero) = 7
fmt_to_message_hdr_size (suc (suc zero)) = 3
fmt_to_message_hdr_size (suc (suc (suc n))) = 0
