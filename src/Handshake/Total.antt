-- ===== src/Handshake/Total.antt =====
-- The handshake on every input, and on that of a client which keeps to it.
use fastlive.Base.{ℕ, ◌+◌, ◌-◌, ◌≤◌, ◌≡◌, refl, sym, ap, ◌∙◌, arith}
use fastlive.Base.{List, length, take, drop, overwrite, replicate, Option, none, some}
use fastlive.Base.{true, Bool-cases, inl, inr, ◌⊎◌, ok, err, ◌==◌}
use fastlive.Base.{same_key, le→leb, length-overwrite, length-replicate}
use fastlive.Base.{if◌then◌else◌, bad_digest, Option-cases}
use fastlive.Common.{bytes_as_uint32, uint_as_bytes}
use fastlive.Common.Bytes.{length-uint_as_bytes}
use fastlive.Handshake.{
  make_digest, find_digest, sign, reply_digest, parse_c1, create_s1, create_s2, answer,
  hs_client_partial_key, hs_server_full_key, hs_server_partial_key,
}
use fastlive.Handshake.Digest.{
  calc_digest_pos-bounds, make_digest-at, find_digest-sign, length-signed, digest_at,
}

module _ (hmac : List ℕ → List ℕ → List ℕ)
    (size : (key src : List ℕ) → length (hmac key src) ≡ 32) where
  find_digest-total :
      (p key : List ℕ) (base : ℕ)
      → length p ≡ 1536
      → base ≤ 772
      → (r : Option ℕ) × (find_digest hmac p key base ≡ ok r)
  unfolding find_digest
  find_digest-total p key base len h =
      let (pos, place, lo, hi) = calc_digest_pos-bounds p base len h in
      (
        if same_key (take 32 (drop pos p)) (digest_at hmac size p key pos) then some pos else none,
        rw
            (
              place,
              make_digest-at hmac size p key pos (omega (arith, lo)) hi,
              le→leb (pos + 32) (length p) hi,
            )
            refl,
      )

  parse_c1-total :
      (p peer_key key : List ℕ)
      → length p ≡ 1536
      → (r : Option (List ℕ)) × (parse_c1 hmac p peer_key key ≡ ok r)
  unfolding parse_c1 reply_digest make_digest
  parse_c1-total p peer_key key len =
      let (late, found) = find_digest-total p peer_key 772 len (omega arith) in
      let (early, found') = find_digest-total p peer_key 8 len (omega arith) in
      elim (Option-cases late) [
        | inr (pos, e) ↦ (some (hmac key (take 32 (drop pos p))), rw (found, e) refl)
        | inl e ↦ elim (Option-cases early) [
          | inr (pos, e') ↦ (some (hmac key (take 32 (drop pos p))), rw (found, e, found', e') refl)
          | inl e' ↦ (none, rw (found, e, found', e') refl)
        ]
      ]

  -- A c1 that its client has signed in either of the two places is accepted.
  pub parse_c1-sign :
      (p peer_key key : List ℕ) (base : ℕ)
      → length p ≡ 1536
      → (base ≡ 8) ⊎ (base ≡ 772)
      → (q : List ℕ) × (digest : List ℕ) × (sign hmac p peer_key base ≡ ok q)
        × (parse_c1 hmac q peer_key key ≡ ok (some digest))
  unfolding parse_c1 reply_digest make_digest
  parse_c1-sign p peer_key key base len h =
      let (q, pos, made, found, len', _, _) =
        find_digest-sign hmac size p peer_key base len (ground (arith, h)) in
      elim h [
        | inr at_772 ↦
            let e : find_digest hmac q peer_key 772 ≡ ok (some pos) =
              ap (find_digest hmac q peer_key) (sym at_772) ∙ found in
            (q, hmac key (take 32 (drop pos q)), made, rw e refl)
        | inl at_8 ↦
            let e : find_digest hmac q peer_key 8 ≡ ok (some pos) =
              ap (find_digest hmac q peer_key) (sym at_8) ∙ found in
            let (late, found') = find_digest-total q peer_key 772 len' (omega arith) in
            elim (Option-cases late) [
              | inr (pos', l) ↦ (q, hmac key (take 32 (drop pos' q)), made, rw (found', l) refl)
              | inl l ↦ (q, hmac key (take 32 (drop pos q)), made, rw (found', l, e) refl)
            ]
      ]

  module _ (random : ℕ → ℕ → List ℕ) (fills : (call n : ℕ) → length (random call n) ≡ n) where
    -- s1 and s2 have their sizes.
    abbrev pub IsAnswer : List ℕ × List ℕ → Type 0
    IsAnswer (s1, s2) = (length s1 ≡ 1536) × (length s2 ≡ 1536)

    -- The s1 that the server makes has 1536 bytes, and a client that looks from base 8 with the same
    -- key finds its digest.
    pub create_s1-sign :
        (p key : List ℕ) (time ver : ℕ)
        → length p ≡ 1536
        → (s1 : List ℕ) × (pos : ℕ) × (create_s1 hmac random p time ver key ≡ ok s1)
          × (find_digest hmac s1 key 8 ≡ ok (some pos))
          × (length s1 ≡ 1536)
    unfolding create_s1
    create_s1-sign p key time ver len =
        let (s1, pos, made, found, len', _, _) =
          find_digest-sign hmac size filled key 8 filled_len (omega arith) in
        (s1, pos, made, found, len')
      where
        noisy : List ℕ
        noisy = overwrite p 8 (random 0 (length p - 8))

        timed : List ℕ
        timed = overwrite noisy 0 (uint_as_bytes time 4 true)

        filled : List ℕ
        filled = overwrite timed 4 (uint_as_bytes ver 4 true)

        noisy_len : length noisy ≡ 1536
        noisy_len =
            length-overwrite p 8 (random 0 (length p - 8))
              (omega (arith, fills 0 (length p - 8), len))
            ∙ len

        timed_len : length timed ≡ 1536
        timed_len =
            length-overwrite noisy 0 (uint_as_bytes time 4 true)
              (omega (arith, length-uint_as_bytes time 4 true, noisy_len))
            ∙ noisy_len

        filled_len : length filled ≡ 1536
        filled_len =
            length-overwrite timed 4 (uint_as_bytes ver 4 true)
              (omega (arith, length-uint_as_bytes ver 4 true, timed_len))
            ∙ timed_len

    create_s2-total :
        (p key : List ℕ)
        → length p ≡ 1536
        → (s2 : List ℕ) × (create_s2 hmac random p key ≡ ok s2) × (length s2 ≡ 1536)
    unfolding create_s2
    create_s2-total p key len = (
      overwrite noise gap (digest_at hmac size noise key gap),
      rw (make_digest-at hmac size noise key gap (omega (arith, full)) (omega (arith, full))) refl,
      length-signed hmac size noise key gap (omega (arith, full)) ∙ full,
    )
      where
        noise : List ℕ
        noise = random 1 (length p)

        full : length noise ≡ 1536
        full = fills 1 (length p) ∙ len

        gap : ℕ
        gap = length noise - 32

    -- The answer to a c1 of 1536 bytes: s1 and s2 of that size, or an error for a missing digest.
    pub answer-total :
        (c1 : List ℕ)
        → length c1 ≡ 1536
        → (answer hmac random c1 ≡ err bad_digest)
          ⊎ ((s : List ℕ × List ℕ) × (answer hmac random c1 ≡ ok s) × IsAnswer s)
    unfolding answer
    answer-total c1 len = elim (Bool-cases (bytes_as_uint32 (take 4 (drop 4 c1)) true == 0)) [
      | inl plain ↦
          inr ((replicate 1536 0, c1), rw plain refl, (length-replicate {A = ℕ} 1536 0, len))
      | inr versioned ↦
          let (r, parsed) = parse_c1-total c1 hs_client_partial_key hs_server_full_key len in
          elim (Option-cases r) [
            | inl bad ↦ inl (rw (versioned, parsed, bad) refl)
            | inr (digest, good) ↦
                let (s1, _, made₁, _, len₁) =
                  create_s1-sign (replicate 1536 0) hs_server_partial_key
                    (bytes_as_uint32 (take 4 c1) true) 0x0d0e0a0d
                    (length-replicate {A = ℕ} 1536 0) in
                let (s2, made₂, len₂) =
                  create_s2-total (replicate 1536 0) digest (length-replicate {A = ℕ} 1536 0) in
                inr ((s1, s2), rw (versioned, parsed, good, made₁, made₂) refl, (len₁, len₂))
          ]
    ]
