-- ===== src/Connection/Send/Keeps.antt =====
-- SendIntegralMessage and Flush leave the input and the chunk streams, on any message.
use fastlive.Base.{
  ℕ, zero, suc, ◌+◌, ◌-◌, ◌%◌, ◌^◌, ◌≡◌, refl, ◌∙◌, leb, ◌==◌, ◌&&◌, Bool-cases, inl, inr,
}
use fastlive.Base.{List, [], ◌∷◌, length, replicate, Outcome, ok}
use fastlive.Base.{Ends, returns, errs, breaks}
use fastlive.Chunk.{Chunk}
use fastlive.Chunk.Slice.{Slice, cap}
use fastlive.Chunk.Ends.{encode-Ends}
use fastlive.Connection.{Connection, M, lift, then_with, flush, write, contents}
use fastlive.Connection.Send.{
  chunk_header, get_header_buf, sub_slice, shorten, send_chunk, send_loop, send_integral_message,
}
use fastlive.Connection.Steps.{Ensures, gives, fails, panics, Ensures-if}

-- A step that may fail in any way but leaves the input and the streams.
pub record Keeps (c c' : Connection) : Type 0 where
  pub same_input : c'.input ≡ c.input
  pub same_streams : c'.messages ≡ c.messages

pub Keeps-refl : (c : Connection) → Keeps c c
Keeps-refl c = record { same_input = refl; same_streams = refl }

pub Keeps-trans : {c d e : Connection} → Keeps c d → Keeps d e → Keeps c e
Keeps-trans h k = record {
  same_input = k.same_input ∙ h.same_input;
  same_streams = k.same_streams ∙ h.same_streams;
}

abbrev pub Leaves : {A : Type 0} → Connection → Outcome (A × Connection) → Type 0
Leaves c = Ensures (Unit {0}) (λ _ c'. Keeps c c')

pub Leaves-then :
    {A B : Type 0} {c : Connection} {m : Outcome (A × Connection)} {f : A → M B}
    → Leaves c m
    → ((a : A) (c' : Connection) → Leaves c' (f a c'))
    → Leaves c (then_with m f)
Leaves-then (gives k) f = onward k (f _ _)
  where
    onward :
        {B : Type 0} {c d : Connection} {o : Outcome (B × Connection)}
        → Keeps c d
        → Leaves d o
        → Leaves c o
    onward k (gives l) = gives (Keeps-trans k l)
    onward k fails = fails
    onward k (panics x) = panics tt
Leaves-then fails f = fails
Leaves-then (panics x) f = panics tt

pub lift-Leaves : {A : Type 0} {m : Outcome A} (c : Connection) → Ends m → Leaves c (lift m c)
lift-Leaves c (returns _) = gives (Keeps-refl c)
lift-Leaves c errs = fails
lift-Leaves c breaks = panics tt

sub_slice-Ends : (bytes : List ℕ) (lo hi : ℕ) → Ends (sub_slice bytes lo hi)
unfolding sub_slice
sub_slice-Ends bytes lo hi = elim (Bool-cases (leb lo hi && leb hi (length bytes))) [
  | inl fit ↦ rw fit (returns tt)
  | inr unfit ↦ rw unfit breaks
]

shorten-Ends : (p : Slice) (n : ℕ) → Ends (shorten p n)
unfolding shorten
shorten-Ends p n = elim (Bool-cases (leb n (cap p))) [
  | inl fit ↦ rw fit (returns tt)
  | inr unfit ↦ rw unfit breaks
]

get_header_buf-Leaves : (c : Connection) → Leaves c (get_header_buf c)
unfolding get_header_buf
get_header_buf-Leaves c = from_pool c.encode_hdr_pool
  where
    from_pool :
        (ps : List Slice)
        → Leaves {A = Slice} c (elim ps [
          | [] ↦ ok (record { arr = replicate 18 0; len = 18 }, c)
          | p ∷ ps ↦ ok (p, record c { encode_hdr_pool = ps })
        ])
    from_pool [] = gives (Keeps-refl c)
    from_pool (p ∷ ps) = gives (record { same_input = refl; same_streams = refl })

write-Leaves : (p : Slice) (c : Connection) → Leaves c (write p c)
unfolding write
write-Leaves p c = gives (record { same_input = refl; same_streams = refl })

send_chunk-Leaves : (msg : Chunk) (idx : ℕ) (c : Connection) → Leaves c (send_chunk msg idx c)
unfolding send_chunk
send_chunk-Leaves msg idx c =
    Leaves-then (lift-Leaves c (sub_slice-Ends msg.chunk_data _ _)) (λ body c₁.
      Leaves-then (get_header_buf-Leaves c₁) (λ buf c₂.
        Leaves-then (lift-Leaves c₂ (encode-Ends (chunk_header msg idx) buf)) (λ (size, buf') c₃.
          Leaves-then (lift-Leaves c₃ (shorten-Ends buf' size)) (λ head c₄.
            Leaves-then (write-Leaves head c₄)
              (λ n c₅. Leaves-then (write-Leaves body c₅) (λ k c₆. gives (Keeps-refl c₆)))))))

send_loop-Leaves :
    (msg : Chunk) (rounds idx un_write write_size : ℕ) (c : Connection)
    → Leaves c (send_loop msg rounds idx un_write write_size c)
unfolding send_loop
send_loop-Leaves msg zero idx un_write write_size c = gives (Keeps-refl c)
send_loop-Leaves msg (suc rounds) idx un_write write_size c = elim (Bool-cases (un_write == 0)) [
  | inl all ↦ rw (send_loop, all) (gives (Keeps-refl c))
  | inr more ↦
      rw (send_loop, more)
        (Leaves-then (send_chunk-Leaves msg idx c) (λ (n, size) c'.
          send_loop-Leaves msg rounds (suc idx) ((msg.message_length + 2 ^ 32 - size) % 2 ^ 32)
            (write_size + n) c'))
]

pub send_integral_message-Leaves :
    (msg : Chunk) (c : Connection) → Leaves c (send_integral_message msg c)
unfolding send_integral_message
send_integral_message-Leaves msg c =
    Ensures-if (msg.message_length == 0) (λ _. fails)
      (λ _.
        Ensures-if (c.local_chunk_size == 0) (λ _. panics tt)
          (λ _. send_loop-Leaves msg _ 0 msg.message_length 0 c))

pub flush-Leaves : (c : Connection) → Leaves c (flush c)
unfolding flush
flush-Leaves c =
    Ensures-if (length c.write_buf == 0) (λ _. gives (Keeps-refl c))
      (λ _.
        Ensures-if (leb (length (contents c.write_buf)) c.room)
          (λ _. gives (record { same_input = refl; same_streams = refl })) (λ _. fails))
