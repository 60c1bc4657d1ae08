-- ===== src/Base/Failure.antt =====
-- The outcome of Go code: a value, an error value, a panic, or (no Go value) fuel that ran out.
use mathlib.Core.Bool.{Bool, true, false}
use fastlive.Base.Tests.{if◌then◌else◌}

-- The causes of the errors that the modelled code returns, without the texts wrapped round them.
pub data Error : Type 0 where
  -- io.EOF and io.ErrUnexpectedEOF
  eof unexpected_eof : Error
  -- a failing write to the socket
  write_failed : Error
  -- errFmt and errCsid of the package chunk
  bad_fmt bad_csid : Error
  -- readChunkMessageHeader: a chunk stream that does not begin with a full header, a new message
  -- inside an unfinished one, and a length that changes inside a message
  bad_init_fmt not_integral length_mismatch : Error
  -- SendIntegralMessage and the constructors of message.go
  empty_message bad_control_length bad_control_type : Error
  -- Connection.Init: a missing socket or pool
  no_connection no_pool : Error
  -- tag.go: a body too short for its header
  short_video short_audio : Error
  -- flushAvPacket: a flush of another size than was queued
  flush_mismatch : Error
  -- session.go and broker.go: a missing field, and a session that exists or does not
  field_required session_exists session_missing : Error
  -- handshake_server.go: the version in c0, the digest in c1, the time
  bad_version bad_digest handshake_timeout : Error
  -- the AMF library
  bad_amf : Error
  -- server_conn.go: a transaction id, missing names, media from a client that does not publish,
  -- and the time for a publish or play command
  bad_transaction app_required stream_required not_publisher play_timeout : Error
  -- newServerConn without a server, and the internal error of the handshake
  no_server handshake_unfinished : Error

pub data Outcome {ℓ} (A : Type ℓ) : Type ℓ where
  ok : A → Outcome A
  err : Error → Outcome A
  panic : Outcome A
  stuck : Outcome A

infixl 5 ◌>>=◌
abbrev pub ◌>>=◌ {ℓ κ} : {A : Type ℓ} {B : Type κ} → Outcome A → (A → Outcome B) → Outcome B
ok a >>= f = f a
err e >>= f = err e
panic >>= f = panic
stuck >>= f = stuck

-- `P` holds of the result, if there is one.
abbrev pub After {ℓ κ} : {A : Type ℓ} → (A → Type κ) → Outcome A → Type κ
After P (ok a) = P a
After P (err e) = Unit
After P panic = Unit
After P stuck = Unit

-- A claim on the result of a second step, whatever the first one gives.
pub After-bind {ℓ κ μ} :
    {A : Type ℓ} {B : Type κ} (Q : B → Type μ) (m : Outcome A) (f : A → Outcome B)
    → ((a : A) → After Q (f a))
    → After Q (m >>= f)
After-bind Q (ok a) f k = k a
After-bind Q (err e) f k = tt
After-bind Q panic f k = tt
After-bind Q stuck f k = tt

pub After-then {ℓ κ μ ν} :
    {A : Type ℓ} {B : Type κ} (P : A → Type ν) (Q : B → Type μ) (m : Outcome A) (f : A → Outcome B)
    → After P m
    → ((a : A) → P a → After Q (f a))
    → After Q (m >>= f)
After-then P Q (ok a) f h k = k a h
After-then P Q (err e) f h k = tt
After-then P Q panic f h k = tt
After-then P Q stuck f h k = tt

pub After-if {ℓ κ} :
    {A : Type ℓ} (P : A → Type κ) (b : Bool) (m n : Outcome A)
    → After P m
    → After P n
    → After P (if b then m else n)
After-if P true m n h k = h
After-if P false m n h k = k
