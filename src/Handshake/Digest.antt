-- ===== src/Handshake/Digest.antt =====
-- Where a digest stands, and that it is found where it was written.
use fastlive.Base.{ℕ, ◌+◌, ◌%◌, ◌≤◌, ◌<◌, ◌≡◌, refl, sym, ap, ap₂, ◌∙◌, arith}
use fastlive.Base.{List, ◌++◌, length, take, drop, overwrite, some, ok}
use fastlive.Base.{same_key_refl, le→leb, ne→==, take-overwrite, drop-overwrite}
use fastlive.Base.{drop-overwrite_end, window-overwrite, length-overwrite, take-append}
use fastlive.Handshake.{sum, calc_digest_pos, make_digest, find_digest, sign}

-- In 1536 bytes the digest's place, from either base, begins four bytes behind the base at least
-- and ends with the bytes at most.
pub calc_digest_pos-bounds :
    (p : List ℕ) (base : ℕ)
    → length p ≡ 1536
    → base ≤ 772
    → (pos : ℕ) × (calc_digest_pos p base ≡ ok pos) × (base + 4 ≤ pos) × (pos + 32 ≤ length p)
unfolding calc_digest_pos
calc_digest_pos-bounds p base len h = (
  sum (take 4 (drop base p)) % 728 + base + 4,
  rw (le→leb (base + 4) (length p) (omega (arith, len))) refl,
  omega arith,
  omega (arith, len),
)

-- The place is read from the four bytes at the base.
calc_digest_pos-window :
    (p q : List ℕ) (base : ℕ)
    → length p ≡ length q
    → take 4 (drop base p) ≡ take 4 (drop base q)
    → calc_digest_pos p base ≡ calc_digest_pos q base
unfolding calc_digest_pos
calc_digest_pos-window p q base len e = rw (len, e) refl

module _ (hmac : List ℕ → List ℕ → List ℕ)
    (size : (key src : List ℕ) → length (hmac key src) ≡ 32) where
  -- The digest of `p` without the 32 bytes at `pos`.
  abbrev pub digest_at : List ℕ → List ℕ → ℕ → List ℕ
  digest_at p key pos = hmac key (take pos p ++ drop (pos + 32) p)

  pub make_digest-at :
      (p key : List ℕ) (pos : ℕ)
      → 0 < pos
      → pos + 32 ≤ length p
      → make_digest hmac key p (some pos) ≡ ok (digest_at p key pos)
  unfolding make_digest
  make_digest-at p key pos lo hi =
      rw (ne→== pos 0 (omega arith), le→leb (pos + 32) (length p) hi) refl

  -- The digest that was written does not count for itself.
  digest_at-overwrite :
      (p key d : List ℕ) (pos : ℕ)
      → length d ≡ 32
      → pos + 32 ≤ length p
      → digest_at (overwrite p pos d) key pos ≡ digest_at p key pos
  digest_at-overwrite p key d pos len hi = ap (hmac key) (
      ap₂ ◌++◌ (take-overwrite p pos d (omega (arith, len))) (
        ap (λ n. drop (pos + n) (overwrite p pos d)) (sym len)
        ∙ drop-overwrite_end p pos d (omega (arith, len))
        ∙ ap (λ n. drop (pos + n) p) len))

  -- The 1536 bytes with a digest of `p` at `pos`.
  abbrev pub signed : List ℕ → List ℕ → ℕ → List ℕ
  signed p key pos = overwrite p pos (digest_at p key pos)

  pub length-signed :
      (p key : List ℕ) (pos : ℕ) → pos + 32 ≤ length p → length (signed p key pos) ≡ length p
  length-signed p key pos h =
      length-overwrite p pos (digest_at p key pos)
        (omega (arith, size key (take pos p ++ drop (pos + 32) p)))

  -- A digest that is written into 1536 bytes, at the place that either base leads to, is found there
  -- by a search with the same key from the same base.
  pub find_digest-sign :
      (p key : List ℕ) (base : ℕ)
      → length p ≡ 1536
      → base ≤ 772
      → (q : List ℕ) × (pos : ℕ) × (sign hmac p key base ≡ ok q)
        × (find_digest hmac q key base ≡ ok (some pos))
        × (length q ≡ 1536)
        × (base + 4 ≤ pos)
        × (pos + 32 ≤ 1536)
  unfolding sign find_digest
  find_digest-sign p key base len h =
      let (pos, place, lo, hi) = calc_digest_pos-bounds p base len h in
      let d : List ℕ = digest_at p key pos in
      let long : length d ≡ 32 = size key (take pos p ++ drop (pos + 32) p) in
      let q : List ℕ = overwrite p pos d in
      let same_len : length q ≡ length p = length-signed p key pos hi in
      let place' : calc_digest_pos q base ≡ ok pos =
        calc_digest_pos-window q p base same_len
          (window-overwrite p pos d (omega (arith, long, hi)) base 4 lo)
        ∙ place in
      let there : take 32 (drop pos q) ≡ d =
        ap (take 32) (drop-overwrite p pos d (omega (arith, long, hi)))
        ∙ ap (λ n. take n (d ++ drop (pos + length d) p)) (sym long)
        ∙ take-append d (drop (pos + length d) p) in
      (
        q,
        pos,
        rw (place, make_digest-at p key pos (omega (arith, lo)) hi) refl,
        rw
            (
              place',
              make_digest-at q key pos (omega (arith, lo)) (omega (arith, hi, same_len)),
              digest_at-overwrite p key d pos long hi,
              le→leb (pos + 32) (length q) (omega (arith, hi, same_len)),
              there,
              same_key_refl d,
            )
            refl,
        omega (arith, same_len, len),
        lo,
        omega (arith, hi, len),
      )
