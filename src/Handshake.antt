-- ===== src/Handshake.antt =====
-- pkg/rtmp/handshake/handshake_server.go: the server's side of the handshake. HMAC-SHA256 and the
-- random bytes belong to Go's library and are arguments: `hmac` takes a key and a message, `random`
-- the number of a call and the number of bytes. The socket's bytes are those of the connection.
pub mod Digest
pub mod Serve
pub mod Total
pub mod Greeting
use fastlive.Base.{
  ℕ, zero, suc, ◌+◌, ◌-◌, ◌*◌, ◌/◌, ◌%◌, ◌^◌, Bool, true, false, List, [], ◌∷◌, ◌++◌, Option, none,
  some,
}
use fastlive.Base.{
  ltb, leb, ◌==◌, not, if◌then◌else◌, length, take, drop, overwrite, replicate, same_key,
}
use fastlive.Base.{Outcome, ok, err, panic, stuck, ◌>>=◌}
use fastlive.Base.{bad_digest}
use fastlive.Common.{uint_as_bytes, bytes_as_uint32}

-- hsClientPartialKey: "Genuine Adobe Flash Player 001".
abbrev pub hs_client_partial_key : List ℕ
hs_client_partial_key =
    71 ∷ 101 ∷ 110 ∷ 117 ∷ 105 ∷ 110 ∷ 101 ∷ 32 ∷ 65 ∷ 100 ∷ 111 ∷ 98 ∷ 101 ∷ 32 ∷ 70 ∷ 108 ∷ 97
    ∷ 115 ∷ 104 ∷ 32 ∷ 80 ∷ 108 ∷ 97 ∷ 121 ∷ 101 ∷ 114 ∷ 32 ∷ 48 ∷ 48 ∷ 49 ∷ []

-- hsServerFullKey: "Genuine Adobe Flash Media Server 001" and 32 more bytes.
abbrev pub hs_server_full_key : List ℕ
hs_server_full_key =
    71 ∷ 101 ∷ 110 ∷ 117 ∷ 105 ∷ 110 ∷ 101 ∷ 32 ∷ 65 ∷ 100 ∷ 111 ∷ 98 ∷ 101 ∷ 32 ∷ 70 ∷ 108 ∷ 97
    ∷ 115 ∷ 104 ∷ 32 ∷ 77 ∷ 101 ∷ 100 ∷ 105 ∷ 97 ∷ 32 ∷ 83 ∷ 101 ∷ 114 ∷ 118 ∷ 101 ∷ 114 ∷ 32 ∷ 48
    ∷ 48 ∷ 49 ∷ 0xF0 ∷ 0xEE ∷ 0xC2 ∷ 0x4A ∷ 0x80 ∷ 0x68 ∷ 0xBE ∷ 0xE8 ∷ 0x2E ∷ 0x00 ∷ 0xD0 ∷ 0xD1
    ∷ 0x02 ∷ 0x9E ∷ 0x7E ∷ 0x57 ∷ 0x6E ∷ 0xEC ∷ 0x5D ∷ 0x2D ∷ 0x29 ∷ 0x80 ∷ 0x6F ∷ 0xAB ∷ 0x93
    ∷ 0xB8 ∷ 0xE6 ∷ 0x36 ∷ 0xCF ∷ 0xEB ∷ 0x31 ∷ 0xAE ∷ []

abbrev pub hs_server_partial_key : List ℕ
hs_server_partial_key = take 36 hs_server_full_key

abbrev pub sum : List ℕ → ℕ
sum [] = 0
sum (b ∷ bs) = b + sum bs

-- complexHandshakeCalcDigestPos, which indexes p[base] to p[base + 3].
unfoldable pub calc_digest_pos : List ℕ → ℕ → Outcome ℕ
calc_digest_pos p base =
    if leb (base + 4) (length p) then ok (sum (take 4 (drop base p)) % 728 + base + 4) else panic

module _ (hmac : List ℕ → List ℕ → List ℕ) where
  -- complexHandshakeMakeDigest; `none` is the gap -1.
  unfoldable pub make_digest : List ℕ → List ℕ → Option ℕ → Outcome (List ℕ)
  make_digest key src none = ok (hmac key src)
  make_digest key src (some gap) =
      if gap == 0
      then ok (hmac key src)
      else if leb (gap + 32) (length src)
      then ok (hmac key (take gap src ++ drop (gap + 32) src))
      else panic

  -- The digest is written into its place, as complexHandshakeCreateS0S1 does at its end.
  unfoldable pub sign : List ℕ → List ℕ → ℕ → Outcome (List ℕ)
  sign p key base = do
    gap ← calc_digest_pos p base
    digest ← make_digest key p (some gap)
    ok (overwrite p gap digest)

  -- complexHandshakeFindDigest: the digest's place, or -1.
  unfoldable pub find_digest : List ℕ → List ℕ → ℕ → Outcome (Option ℕ)
  find_digest p key base = do
    gap ← calc_digest_pos p base
    digest ← make_digest key p (some gap)
    if leb (gap + 32) (length p)
        then ok (if same_key (take 32 (drop gap p)) digest then some gap else none)
        else panic

  -- The end of complexHandshakeParseC1, at a digest's place.
  unfoldable pub reply_digest : List ℕ → List ℕ → ℕ → Outcome (Option (List ℕ))
  reply_digest p key pos = do digest ← make_digest key (take 32 (drop pos p)) none; ok (some digest)

  -- complexHandshakeParseC1: the digest is looked for in the second place, then in the first.
  unfoldable pub parse_c1 : List ℕ → List ℕ → List ℕ → Outcome (Option (List ℕ))
  parse_c1 p peer_key key = do
    late ← find_digest p peer_key 772
    elim late [
      | some pos ↦ reply_digest p key pos
      | none ↦ (do
        early ← find_digest p peer_key 8
        elim early [ some pos ↦ reply_digest p key pos | none ↦ ok none ])
    ]

  module _ (random : ℕ → ℕ → List ℕ) where
    -- complexHandshakeCreateS0S1 on the bytes of s1.
    unfoldable pub create_s1 : List ℕ → ℕ → ℕ → List ℕ → Outcome (List ℕ)
    create_s1 p time ver key =
        let noisy = overwrite p 8 (random 0 (length p - 8)) in
        let timed = overwrite noisy 0 (uint_as_bytes time 4 true) in
        sign (overwrite timed 4 (uint_as_bytes ver 4 true)) key 8

    -- complexHandshakeCreateS2
    unfoldable pub create_s2 : List ℕ → List ℕ → Outcome (List ℕ)
    create_s2 p key = do
      let p = random 1 (length p)
      let gap : ℕ = length p - 32
      digest ← make_digest key p (some gap)
      ok (overwrite p gap digest)

    -- s1 and s2 for a client's c1. The copy of c2 into s1 comes before c2 is read: it copies zeros.
    unfoldable pub answer : List ℕ → Outcome (List ℕ × List ℕ)
    answer c1 =
        let cli_time = bytes_as_uint32 (take 4 c1) true in
        let cli_ver = bytes_as_uint32 (take 4 (drop 4 c1)) true in
        if cli_ver == 0 then ok (replicate 1536 0, c1) else (do
          found ← parse_c1 c1 hs_client_partial_key hs_server_full_key
          elim found [
            | none ↦ err bad_digest
            | some digest ↦ (do
              s1 ← create_s1 (replicate 1536 0) cli_time 0x0d0e0a0d hs_server_partial_key
              s2 ← create_s2 (replicate 1536 0) digest
              ok (s1, s2))
          ])
