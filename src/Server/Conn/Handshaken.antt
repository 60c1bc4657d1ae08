-- ===== src/Server/Conn/Handshaken.antt =====
-- handshake called again.
use fastlive.Base.{
  ◌+◌, ◌%◌, ◌^◌, ◌≡◌, refl, ap, Bool, true, false, Option, none, some, ◌==◌, if◌then◌else◌,
}
use fastlive.Base.{Outcome, ok, Error, Finishes, returns, Finishes-if}
use fastlive.Connection.{Connection}
use fastlive.Connection.Steps.{Ensures, gives, fails, panics}
use fastlive.Handshake.Serve.{with_client}
use fastlive.Handshake.Greeting.{Greeted, server_handshake-Greeted}
use fastlive.Server.Conn.{ServerConn}
use fastlive.Server.Conn.Serve.{World, keep_handshake, handshake}
use fastlive.Server.Conn.Total.Serve.{IsOrdinary}

module _ (world : World) where
  handshake-failed :
      (sc : ServerConn) (e : Error)
      → sc.handshake_err ≡ some e
      → handshake world sc ≡ ok (some e, sc)
  unfolding handshake
  handshake-failed sc e h = by_error sc.handshake_err h
    where
      by_error :
          (failed : Option Error)
          → failed ≡ some e
          → (elim failed [
            | some e ↦ ok (some e, sc)
            | none ↦
                if sc.handshake_status == 1
                then ok (none, sc)
                else keep_handshake sc
                    (with_client world.hmac world.random world.slow_handshake sc.connection)
          ])
            ≡ ok (some e, sc)
      by_error none h = absurd (cc)
      by_error (some x) h = ap (λ f. ok (f, sc)) h

  handshake-done :
      (sc : ServerConn)
      → sc.handshake_err ≡ none
      → (sc.handshake_status == 1) ≡ true
      → handshake world sc ≡ ok (none, sc)
  unfolding handshake
  handshake-done sc h d = by_error sc.handshake_err h
    where
      by_error :
          (failed : Option Error)
          → failed ≡ none
          → (elim failed [
            | some e ↦ ok (some e, sc)
            | none ↦
                if sc.handshake_status == 1
                then ok (none, sc)
                else keep_handshake sc
                    (with_client world.hmac world.random world.slow_handshake sc.connection)
          ])
            ≡ ok (none, sc)
      by_error none h = rw d refl
      by_error (some x) h = absurd (cc)

  -- The result that a second call would give.
  abbrev pub IsKept : Option Error × ServerConn → Type 0
  IsKept r = handshake world r.1 ≡ ok r

  -- A handshake is made once: it ends, and a second call gives the same result, an error or none,
  -- and touches neither the socket nor the connection. (A digest has 32 bytes and the random source
  -- fills what it is given.)
  pub handshake-again : (sc : ServerConn) → IsOrdinary world → Finishes IsKept (handshake world sc)
  unfolding handshake with_client keep_handshake
  handshake-again sc ordinary = by_error sc.handshake_err refl
    where
      kept :
          {o : Outcome (Unit {0} × Connection)}
          → sc.handshake_err ≡ none
          → Ensures ⊥ (λ _ c'. Greeted sc.connection c') o
          → Finishes IsKept (keep_handshake sc o)
      kept none_before (gives {c = c'} g) =
          Finishes-if ((sc.handshake_status + 1) % 2 ^ 32 == 1)
            (λ d. returns (
              handshake-done
                (record sc {
                  connection = c';
                  handshake_status = (sc.handshake_status + 1) % 2 ^ 32;
                })
                none_before d))
            (λ _. returns (handshake-failed _ _ refl))
      kept none_before fails = returns (handshake-failed _ _ refl)
      kept none_before (panics x) = absurd x

      shake :
          (late : Bool)
          → Ensures ⊥
              (λ _ c'. Greeted sc.connection c')
              (with_client world.hmac world.random late sc.connection)
      shake true = fails
      shake false =
          server_handshake-Greeted world.hmac ordinary.digest_size world.random ordinary.fills
            sc.connection

      by_error :
          (failed : Option Error)
          → sc.handshake_err ≡ failed
          → Finishes IsKept (elim failed [
            | some e ↦ ok (some e, sc)
            | none ↦
                if sc.handshake_status == 1
                then ok (none, sc)
                else keep_handshake sc
                    (with_client world.hmac world.random world.slow_handshake sc.connection)
          ])
      by_error (some e) h = returns (handshake-failed sc e h)
      by_error none h =
          Finishes-if (sc.handshake_status == 1) (λ d. returns (handshake-done sc h d))
            (λ _. kept h (shake world.slow_handshake))
