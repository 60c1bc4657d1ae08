-- ===== src/Handshake/Serve.antt =====
-- serverHandshke and WithClient, on the connection's socket.
use fastlive.Base.{ℕ, ◌-◌, Bool, List, ◌∷◌, ◌++◌, ◌==◌, leb, not, if◌then◌else◌}
use fastlive.Base.{length, drop, get_or, ok, err, write_failed, bad_version, handshake_timeout}
use fastlive.Connection.{M, ◌>>=◌, pure, lift, read}
use fastlive.Handshake.{answer}

-- A write to the socket itself.
unfoldable pub write_socket : List ℕ → M (Unit {0})
write_socket bytes c =
    if leb (length bytes) c.room
    then ok (tt, record c { room = c.room - length bytes; sent = c.sent ++ bytes })
    else err write_failed

module _ (hmac : List ℕ → List ℕ → List ℕ) (random : ℕ → ℕ → List ℕ) where
  -- What follows a valid c0.
  unfoldable pub exchange : List ℕ → M (Unit {0})
  exchange c1 = do
    (s1, s2) ← lift (answer hmac random c1)
    _ ← write_socket (3 ∷ (s1 ++ s2))
    _ ← read 1536
    pure tt

  -- serverHandshke
  unfoldable pub server_handshake : M (Unit {0})
  server_handshake = do
    c0c1 ← read 1537
    if not (get_or c0c1 0 0 == 3) then lift (err bad_version) else exchange (drop 1 c0c1)

  -- WithClient, told whether the time runs out first.
  unfoldable pub with_client : Bool → M (Unit {0})
  with_client late c = if late then err handshake_timeout else server_handshake c
