-- ===== src/Tests/Handshakes.antt =====
-- The handshake with a digest that ignores its arguments and a random source of sevens.
use fastlive.Base.{
  ℕ, List, [], ◌∷◌, ◌++◌, ok, some, inl, refl, arith, ◌≡◌, ◌+◌, ◌≤◌, length, replicate,
  length-replicate,
}
use fastlive.Common.{bytes_as_uint32, bytes_uint_big}
use fastlive.Connection.{Connection}
use fastlive.Connection.Receive.Read.{fed}
use fastlive.Connection.Steps.{Ensures}
use fastlive.Handshake.{
  calc_digest_pos, sign, find_digest, parse_c1, create_s1, hs_client_partial_key,
  hs_server_full_key, hs_server_partial_key,
}
use fastlive.Handshake.Digest.{calc_digest_pos-bounds, find_digest-sign}
use fastlive.Handshake.Total.{parse_c1-sign, create_s1-sign}
use fastlive.Handshake.Serve.{server_handshake}
use fastlive.Handshake.Greeting.{Greeted, server_handshake-Greeted, server_handshake-plain}
use fastlive.Tests.Connections.{idle}

abbrev pub fives : List ℕ → List ℕ → List ℕ
fives key src = replicate 32 5

abbrev pub sevens : ℕ → ℕ → List ℕ
sevens call n = replicate n 7

pub fives_size : (key src : List ℕ) → length (fives key src) ≡ 32
fives_size key src = length-replicate {A = ℕ} 32 5

pub sevens_size : (call n : ℕ) → length (sevens call n) ≡ n
sevens_size call n = length-replicate {A = ℕ} n 7

abbrev zeros : List ℕ
zeros = replicate 1536 0

zeros_size : length zeros ≡ 1536
zeros_size = length-replicate {A = ℕ} 1536 0

calc_digest_pos-bounds_example :
    (pos : ℕ) × (calc_digest_pos zeros 772 ≡ ok pos) × (776 ≤ pos) × (pos + 32 ≤ length zeros)
calc_digest_pos-bounds_example = calc_digest_pos-bounds zeros 772 zeros_size (omega arith)

find_digest-sign_example :
    (q : List ℕ) × (pos : ℕ) × (sign fives zeros (1 ∷ []) 8 ≡ ok q)
    × (find_digest fives q (1 ∷ []) 8 ≡ ok (some pos))
    × (length q ≡ 1536)
    × (12 ≤ pos)
    × (pos + 32 ≤ 1536)
find_digest-sign_example =
    find_digest-sign fives fives_size zeros (1 ∷ []) 8 zeros_size (omega arith)

parse_c1-sign_example :
    (q : List ℕ) × (digest : List ℕ) × (sign fives zeros hs_client_partial_key 8 ≡ ok q)
    × (parse_c1 fives q hs_client_partial_key hs_server_full_key ≡ ok (some digest))
parse_c1-sign_example =
    parse_c1-sign fives fives_size zeros hs_client_partial_key hs_server_full_key 8 zeros_size
      (inl refl)

create_s1-sign_example :
    (s1 : List ℕ) × (pos : ℕ) × (create_s1 fives sevens zeros 100 0x0d0e0a0d hs_server_partial_key
      ≡ ok s1)
    × (find_digest fives s1 hs_server_partial_key 8 ≡ ok (some pos))
    × (length s1 ≡ 1536)
create_s1-sign_example =
    create_s1-sign fives fives_size sevens sevens_size zeros hs_server_partial_key 100 0x0d0e0a0d
      zeros_size

abbrev waiting_client : Connection
waiting_client = fed idle (3 ∷ (zeros ++ (zeros ++ (1 ∷ 2 ∷ []))))

server_handshake-Greeted_example :
    Ensures ⊥ (λ _ c'. Greeted waiting_client c') (server_handshake fives sevens waiting_client)
server_handshake-Greeted_example =
    server_handshake-Greeted fives fives_size sevens sevens_size waiting_client

server_handshake-plain_example :
    server_handshake fives sevens waiting_client
    ≡ ok (
      tt,
      record (fed idle (1 ∷ 2 ∷ [])) {
        room = 6927;
        sent = idle.sent ++ (3 ∷ (replicate 1536 0 ++ zeros));
      },
    )
unfolding bytes_as_uint32 bytes_uint_big
server_handshake-plain_example =
    server_handshake-plain fives fives_size sevens sevens_size zeros zeros (1 ∷ 2 ∷ []) idle
      zeros_size zeros_size refl (omega arith)
