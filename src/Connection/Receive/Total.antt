-- ===== src/Connection/Receive/Total.antt =====
-- RecvIntegralMessage from any state whose streams are sound, on any input.
use fastlive.Base.{ℕ, zero, suc, ◌<◌, ◌≡◌, refl, sym, ap, ◌∙◌, arith}
use fastlive.Base.{List, [], ◌∷◌, length, All, inl, inr, ◌≢◌, true, false}
use fastlive.Base.{Outcome, ok, none, some, Bool, Bool-cases, ltb, ◌==◌}
use fastlive.Base.{◌||◌}
use fastlive.Chunk.{Stream, fresh_stream, new_stream}
use fastlive.Connection.{Connection, find, store}
use fastlive.Connection.Receive.{
  read_chunk_basic_header, stream_of, read_chunk, receive_loop, recv_integral_message,
}
use fastlive.Connection.Steps.{Ensures, gives, fails, panics, Ensures-then, Ensures-then_eq}
use fastlive.Connection.Receive.Sound.{IsSound, read_chunk_message_header-keeps}
use fastlive.Connection.Receive.Keeps.{read_chunk_basic_header-keeps, read_chunk_message_body-keeps}
use fastlive.Base.{Option-cases, subst}

-- Every stream of the connection is sound.
abbrev pub AllSound : List (ℕ × Stream) → Type 0
AllSound = All (λ p. IsSound p.1)

find-AllSound :
    (k : ℕ) (m : List (ℕ × Stream)) {s : Stream} → AllSound m → find k m ≡ some s → IsSound s
find-AllSound k [] is e = ground (arith, e)
find-AllSound k ((j, t) ∷ m) (i, is) e = elim (Bool-cases (j == k)) [
  | inl same ↦ ground (arith, i, same, e)
  | inr other ↦ find-AllSound k m is (ground (arith, other, e))
]

pub store-AllSound :
    (k : ℕ) (s : Stream) (m : List (ℕ × Stream)) → IsSound s → AllSound m → AllSound (store k s m)
store-AllSound k s [] i is = (i, tt)
store-AllSound k s ((j, t) ∷ m) i (i', is) = elim (Bool-cases (j == k)) [
  | inl same ↦ rw same (i, is)
  | inr other ↦ rw other (i', store-AllSound k s m i is)
]

fresh_stream-IsSound : (fmt csid : ℕ) (first : Bool) → IsSound (fresh_stream fmt csid first)
fresh_stream-IsSound fmt csid first = record {
  read_le = omega arith;
  length_bound = omega arith;
  buffer = inl refl;
  whole = λ e. ground (arith, e);
}

-- The chunk at the head of the input belongs to a chunk stream that is not known yet, and NewStream
-- refuses to make.
pub record IsRefused (c : Connection) : Type 0 where
  pub fmt : ℕ
  pub csid : ℕ
  pub next : Connection
  pub header : read_chunk_basic_header c ≡ ok ((fmt, csid), next)
  pub unknown : find csid next.messages ≡ none
  pub refused : (s : Stream) → new_stream fmt csid true ≢ ok s

stream_of-keeps :
    (X : Type 0) (fmt csid : ℕ) (c : Connection)
    → AllSound c.messages
    → (find csid c.messages ≡ none → ((s : Stream) → new_stream fmt csid true ≢ ok s) → X)
    → Ensures X
        (λ s c'. IsSound s × AllSound c'.messages × (c'.input ≡ c.input))
        (stream_of fmt csid c)
unfolding stream_of new_stream
stream_of-keeps X fmt csid c is x = elim (Option-cases (find csid c.messages)) [
  | inl new ↦ elim (Bool-cases (ltb 3 fmt)) [
    | inl bad ↦ rw (stream_of, new, bad) (panics (x new (λ s. ground (arith, bad))))
    | inr good ↦ elim (Bool-cases (ltb csid 2 || ltb 65559 csid)) [
      | inl out ↦ rw (stream_of, new, good, out) (panics (x new (λ s. ground (arith, good, out))))
      | inr within ↦
          rw (stream_of, new, good, within)
            (gives (
              fresh_stream-IsSound fmt csid true,
              store-AllSound csid (fresh_stream fmt csid true) c.messages
                  (fresh_stream-IsSound fmt csid true) is,
              refl,
            ))
    ]
  ]
  | inr (s, known) ↦
      rw (stream_of, known) (gives (find-AllSound csid c.messages is known, is, refl))
]

-- What a round of the loop, or the whole of it, leaves when it succeeds.
pub record Received (c : Connection) (s : Stream) (c' : Connection) : Type 0 where
  pub sound : IsSound s
  pub streams : AllSound c'.messages
  pub progress : length c'.input < length c.input

-- One chunk, of any bytes: the streams stay sound, a byte of the input at least is consumed, and
-- the only panic is that of a chunk stream which NewStream refuses.
pub read_chunk-keeps :
    (c : Connection)
    → AllSound c.messages
    → Ensures (IsRefused c) (λ r c'. Received c r.1 c') (read_chunk c)
unfolding read_chunk
read_chunk-keeps c is =
    Ensures-then_eq (read_chunk_basic_header c) (read_chunk_basic_header-keeps X c)
      (λ (fmt, csid) c₁ e l₁.
        Ensures-then
          (stream_of-keeps X fmt csid c₁ (subst AllSound (sym l₁.0.streams) is) (λ new refused.
            record {
              fmt = fmt;
              csid = csid;
              next = c₁;
              header = e;
              unknown = new;
              refused = refused;
            }))
          (λ s c₂ l₂. Ensures-then (read_chunk_message_header-keeps X s fmt c₂ l₂.0) (λ s' c₃ l₃.
            Ensures-then (read_chunk_message_body-keeps X s' c₃ l₃.0) (λ s'' c₄ l₄. gives (record {
              sound = l₄.0;
              streams =
                  store-AllSound csid s'' c₄.messages l₄.0
                    (subst AllSound (sym (l₄.1.streams ∙ l₃.1.streams)) l₂.1);
              progress = omega (arith, l₁.1, ap length l₂.2, l₃.1, l₄.1);
            })))))
  where
    X : Type 0
    X = IsRefused c

-- A claim about panics that is not wanted any more.
forget :
    {X A : Type 0} {P : A → Connection → Type 0} {o : Outcome (A × Connection)}
    → Ensures X P o
    → Ensures (Unit {0}) P o
forget (gives p) = gives p
forget fails = fails
forget (panics x) = panics tt

-- The result of the loop is a whole message.
abbrev pub IsWhole : Connection → ℕ × Stream → Connection → Type 0
IsWhole c (csid, s) c' = Received c s c' × (s.is_intergral ≡ true)

go_on :
    (b : Bool) (fuel : ℕ) (csid : ℕ) (s : Stream) (c c' : Connection)
    → s.is_intergral ≡ b
    → Received c s c'
    → Ensures (Unit {0}) (IsWhole c') (receive_loop fuel c')
    → Ensures
        (Unit {0})
        (IsWhole c)
        (elim b [ true ↦ ok ((csid, s), c') | false ↦ receive_loop fuel c' ])
go_on true fuel csid s c c' e r _ = gives (r, e)
go_on false fuel csid s c c' e r h = nearer h
  where
    nearer :
        {o : Outcome ((ℕ × Stream) × Connection)}
        → Ensures (Unit {0}) (IsWhole c') o
        → Ensures (Unit {0}) (IsWhole c) o
    nearer (gives (q, w)) =
        gives (record { sound = q.sound; streams = q.streams; progress = omega (arith, q, r) }, w)
    nearer fails = fails
    nearer (panics x) = panics x

receive_loop-keeps :
    (fuel : ℕ) (c : Connection)
    → AllSound c.messages
    → length c.input < fuel
    → Ensures (Unit {0}) (IsWhole c) (receive_loop fuel c)
unfolding receive_loop
receive_loop-keeps zero c is h = ground (arith, h)
receive_loop-keeps (suc fuel) c is h =
    Ensures-then {P = λ r c'. Received c r.1 c'} (forget (read_chunk-keeps c is)) (λ (csid, s) c' r.
      go_on s.is_intergral fuel csid s c c' refl r
        (receive_loop-keeps fuel c' r.streams (omega (arith, h, r))))

-- RecvIntegralMessage ends on every input: it gives an error, panics, or returns a message all of
-- whose bytes have been read, and it leaves every stream sound.
pub recv_integral_message-IsWhole :
    (c : Connection)
    → AllSound c.messages
    → Ensures (Unit {0}) (IsWhole c) (recv_integral_message c)
unfolding recv_integral_message
recv_integral_message-IsWhole c is = receive_loop-keeps (suc (length c.input)) c is (omega arith)
