-- ===== src/Handshake/Greeting.antt =====
-- serverHandshke on any connection.
use fastlive.Base.{ℕ, ◌-◌, ◌≤◌, ◌≡◌, refl, sym, ap, ◌∙◌, arith, List, ◌∷◌, ◌++◌, length, take, drop}
use fastlive.Base.{true, inl, inr, ok, ◌==◌, leb, not, get_or, replicate}
use fastlive.Base.{
  leb→le, length-take, length-drop, drop-drop, le→leb, eq→==, length-append, length-replicate,
}
use fastlive.Common.{bytes_as_uint32}
use fastlive.Connection.{Connection, read}
use fastlive.Connection.Receive.Read.{fed, read-append}
use fastlive.Connection.Steps.{Ensures, gives, fails, Ensures-then, Ensures-if, Ensures-if_at}
use fastlive.Handshake.{answer}
use fastlive.Handshake.Total.{answer-total}
use fastlive.Handshake.Serve.{write_socket, exchange, server_handshake}

-- The first `n` bytes of the input are read, and are there.
abbrev Takes : ℕ → Connection → List ℕ → Connection → Type 0
Takes n c bytes c' =
    (bytes ≡ take n c.input) × (c' ≡ record c { input = drop n c.input }) × (n ≤ length c.input)

read-Takes : (X : Type 0) (n : ℕ) (c : Connection) → Ensures X (Takes n c) (read n c)
unfolding read
read-Takes X n c =
    Ensures-if (leb n (length c.input)) (λ e. gives (refl, refl, leb→le _ _ e))
      (λ _. Ensures-if (length c.input == 0) (λ _. fails) (λ _. fails))

-- What a handshake that succeeds has done: of its three messages c0 and c1, and c2, it has read
-- all, and s0, s1 and s2 it has written; the chunk streams are as before.
pub record Greeted (c c' : Connection) : Type 0 where
  pub s1 : List ℕ
  pub s2 : List ℕ
  pub s1_size : length s1 ≡ 1536
  pub s2_size : length s2 ≡ 1536
  pub wrote : c'.sent ≡ c.sent ++ (3 ∷ (s1 ++ s2))
  pub took : c'.input ≡ drop 3073 c.input
  pub enough : 3073 ≤ length c.input
  pub streams : c'.messages ≡ c.messages

module _ (hmac : List ℕ → List ℕ → List ℕ) (size : (key src : List ℕ) → length (hmac key src) ≡ 32)
    (random : ℕ → ℕ → List ℕ) (fills : (call n : ℕ) → length (random call n) ≡ n) where
  exchange-Greeted :
      (c d : Connection) (c1 : List ℕ)
      → length c1 ≡ 1536
      → d ≡ record c { input = drop 1537 c.input }
      → 1537 ≤ length c.input
      → Ensures ⊥ (λ _ c'. Greeted c c') (exchange hmac random c1 d)
  unfolding exchange write_socket
  exchange-Greeted c d c1 len same enough = elim (answer-total hmac size random fills c1 len) [
    | inl bad ↦ rw (exchange, bad) fails
    | inr (s, good, fit) ↦
        rw (exchange, good)
          (Ensures-then
            {P = λ _ e. e ≡ record d {
              room = d.room - length (3 ∷ (s.0 ++ s.1));
              sent = d.sent ++ (3 ∷ (s.0 ++ s.1));
            }}
            (Ensures-if (leb (length (3 ∷ (s.0 ++ s.1))) d.room) (λ _. gives refl) (λ _. fails))
            (λ _ e wrote. Ensures-then (read-Takes ⊥ 1536 e) (λ _ f took. gives (record {
              s1 = s.0;
              s2 = s.1;
              s1_size = fit.0;
              s2_size = fit.1;
              wrote =
                  ap (λ x. x.sent) took.1
                  ∙ ap (λ x. x.sent) wrote
                  ∙ ap (λ x. x.sent ++ (3 ∷ (s.0 ++ s.1))) same;
              took =
                  ap (λ x. x.input) took.1
                  ∙ ap (λ x. drop 1536 x.input) wrote
                  ∙ ap (λ x. drop 1536 x.input) same
                  ∙ drop-drop 1537 1536 c.input;
              enough = omega (
                arith,
                took.2,
                ap (λ x. length x.input) wrote,
                ap (λ x. length x.input) same,
                length-drop 1537 c.input,
                enough,
              );
              streams =
                  ap (λ x. x.messages) took.1
                  ∙ ap (λ x. x.messages) wrote
                  ∙ ap (λ x. x.messages) same;
            }))))
  ]

  -- The handshake ends on every input, without a panic: with an error, or after it has read c0, c1
  -- and c2 and written s0, s1 and s2, each of its size. (A digest of HMAC-SHA256 has 32 bytes, and
  -- the random source fills what it is given.)
  pub server_handshake-Greeted :
      (c : Connection) → Ensures ⊥ (λ _ c'. Greeted c c') (server_handshake hmac random c)
  unfolding server_handshake
  server_handshake-Greeted c = Ensures-then (read-Takes ⊥ 1537 c) (λ c0c1 d took.
      Ensures-if_at (not (get_or c0c1 0 0 == 3)) _ _ d (λ _. fails)
        (λ _.
          exchange-Greeted c d (drop 1 c0c1)
            (omega (arith, length-drop 1 c0c1, ap length took.0, length-take 1537 c.input, took.2))
            took.1 took.2))

  -- A client of the plain handshake, whose c1 has the version 0, gets s0, an s1 of zeros and its own
  -- c1 as s2; the input is left behind its c2, of which nothing is checked.
  pub server_handshake-plain :
      (c1 c2 rest : List ℕ) (c : Connection)
      → length c1 ≡ 1536
      → length c2 ≡ 1536
      → bytes_as_uint32 (take 4 (drop 4 c1)) true ≡ 0
      → 3073 ≤ c.room
      → server_handshake hmac random (fed c (3 ∷ (c1 ++ (c2 ++ rest))))
        ≡ ok (
          tt,
          record (fed c rest) {
            room = c.room - 3073;
            sent = c.sent ++ (3 ∷ (replicate 1536 0 ++ c1));
          },
        )
  unfolding server_handshake exchange write_socket answer
  server_handshake-plain c1 c2 rest c len₁ len₂ plain room =
      rw
        (
          read-append 1537 (3 ∷ c1) (c2 ++ rest) c (omega (arith, len₁)),
          eq→== (bytes_as_uint32 (take 4 (drop 4 c1)) true) 0 plain,
          write_socket,
          le→leb (length reply) c.room (omega (arith, long, room)),
          read-append 1536 c2 rest
              (record c { room = c.room - length reply; sent = c.sent ++ reply }) (sym len₂),
        )
        (ap (λ n. ok (tt, record (fed c rest) { room = c.room - n; sent = c.sent ++ reply })) long)
    where
      reply : List ℕ
      reply = 3 ∷ (replicate 1536 0 ++ c1)

      long : length reply ≡ 3073
      long =
          omega (arith, length-append (replicate 1536 0) c1, length-replicate {A = ℕ} 1536 0, len₁)
