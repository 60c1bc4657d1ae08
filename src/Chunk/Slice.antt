-- ===== src/Chunk/Slice.antt =====
-- A Go byte slice that is written in place: `arr` is its memory up to the capacity, `len` its
-- length. An index must be below the length, a sub-slice must end within the capacity.
use fastlive.Base.{ℕ, ◌-◌, List, [], ◌∷◌, ◌++◌, ltb, leb, ◌&&◌, if◌then◌else◌}
use fastlive.Base.{length, take, drop, overwrite, Outcome, ok, panic}

pub record Slice : Type 0 where
  pub arr : List ℕ
  pub len : ℕ

abbrev pub cap : Slice → ℕ
cap p = length p.arr

-- `p[i] = b`
unfoldable pub put_byte : Slice → ℕ → ℕ → Outcome Slice
put_byte p i b = if ltb i p.len then ok (record p { arr = overwrite p.arr i (b ∷ []) }) else panic

-- A write of all of `p[lo:hi]`, where `bs` has `hi - lo` elements.
unfoldable pub put_bytes : Slice → ℕ → ℕ → List ℕ → Outcome Slice
put_bytes p lo hi bs =
    if leb lo hi && leb hi (cap p) then ok (record p { arr = overwrite p.arr lo bs }) else panic

-- `p[lo:]`, which ends at the length
unfoldable pub tail_from : Slice → ℕ → Outcome Slice
tail_from p lo =
    if leb lo p.len then ok (record { arr = drop lo p.arr; len = p.len - lo }) else panic

-- The memory of `p` after its tail from `lo` was written as `q`.
abbrev pub with_tail : Slice → ℕ → Slice → Slice
with_tail p lo q = record p { arr = take lo p.arr ++ q.arr }

-- The contents of `p[:n]`.
abbrev pub front : Slice → ℕ → List ℕ
front p n = take n p.arr
