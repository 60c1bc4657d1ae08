-- ===== src/Connection/Receive/Keeps.antt =====
-- RecvIntegralMessage from any state whose streams are sound, on any input.
use fastlive.Base.{ℕ, ◌+◌, ◌-◌, ◌/◌, ◌%◌, ◌^◌, ◌≤◌, ◌<◌, ◌≡◌, refl, ◌∙◌, arith}
use fastlive.Base.{List, length, inl, inr, false}
use fastlive.Base.{leb, ◌==◌}
use fastlive.Base.{length-replicate}
use fastlive.Base.{length-overwrite, ◌&&◌, ◌||◌}
use fastlive.Chunk.{Stream}
use fastlive.Connection.{Connection, read_bytes_as_uint32, pure, ◌>>=◌}
use fastlive.Connection.Receive.{
  read_chunk_basic_header, read_chunk_message_body, body_data, body_size, after_body,
}
use fastlive.Connection.Steps.{
  Ensures, gives, Ensures-then, Ensures-if, Ensures-if_at, Later, Later-refl, Later-trans,
  read-Later,
}
use fastlive.Connection.Receive.Sound.{IsSound}

body_size-le :
    (s : Stream) (remote : ℕ) → IsSound s → s.has_read + body_size s remote ≤ s.message_length
body_size-le s remote i = ground (arith, i)

length-body_data : (s : Stream) → IsSound s → length (body_data s) ≡ s.message_length
length-body_data s i = ground (arith, i, i.buffer, length-replicate {A = ℕ} s.message_length 0)

after_body-IsSound :
    (s : Stream) (remote : ℕ) (bytes : List ℕ)
    → IsSound s
    → length bytes ≡ body_size s remote
    → s.message_length == 0 ≡ false
    → IsSound (after_body s (body_size s remote) bytes)
after_body-IsSound s remote bytes i e full = record {
  read_le = ground (arith, i, body_size-le s remote i);
  length_bound = i.length_bound;
  buffer = inr (length-overwrite (body_data s) s.has_read bytes fits ∙ length-body_data s i);
  whole = λ e. ground (arith, i, body_size-le s remote i);
}
  where
    fits : s.has_read + length bytes ≤ length (body_data s)
    fits = omega (arith, e, body_size-le s remote i, length-body_data s i)

module _ (X : Type 0) where
  -- The sub-slice that the body is read into always fits.
  pub read_chunk_message_body-keeps :
      (s : Stream) (c : Connection)
      → IsSound s
      → Ensures X (λ s' c'. IsSound s' × Later c c') (read_chunk_message_body s c)
  unfolding read_chunk_message_body
  read_chunk_message_body-keeps s c i =
      Ensures-if (s.message_length == 0)
        (λ e. gives (
          record {
            read_le = omega arith;
            length_bound = i.length_bound;
            buffer = inl refl;
            whole = λ f. ground (arith, e, f, i);
          },
          Later-refl c,
        ))
        (λ e.
          Ensures-if (leb s.has_read hi && leb hi (length (body_data s)))
            (λ f. Ensures-then (read-Later X (hi - s.has_read) c) (λ bytes c' l. gives (
              after_body-IsSound s c.remote_chunk_size bytes i (omega (arith, l.1, in_range)) e,
              l.0,
            )))
            (λ f.
              ground (arith, in_range, body_size-le s c.remote_chunk_size i, length-body_data s i)))
    where
      hi : ℕ
      hi = (s.has_read + body_size s c.remote_chunk_size) % 2 ^ 32

      in_range : hi ≡ s.has_read + body_size s c.remote_chunk_size
      in_range = omega (arith, i, body_size-le s c.remote_chunk_size i)

  pub read_chunk_basic_header-keeps :
      (c : Connection)
      → Ensures X
          (λ _ c'. Later c c' × (length c'.input < length c.input))
          (read_chunk_basic_header c)
  unfolding read_chunk_basic_header read_bytes_as_uint32
  read_chunk_basic_header-keeps c =
      Ensures-then {P = λ _ c'. Later c c' × (length c'.input + 1 ≡ length c.input)}
        (Ensures-then (read-Later X 1 c) (λ buffer c' l. gives (l.0, l.2)))
        (λ h c₁ l₁.
          Ensures-if_at (h % 64 == 0 || h % 64 == 1)
            (do
              id ← read_bytes_as_uint32 (1 + h % 64) false
              pure (h / 2 ^ 6 % 2 ^ 8, (id + 64) % 2 ^ 32))
            (pure (h / 2 ^ 6 % 2 ^ 8, h % 64)) c₁
            (λ e.
              Ensures-then {P = λ _ c'. Later c₁ c'}
                (Ensures-then (read-Later X (1 + h % 64) c₁) (λ buffer c' l. gives l.0))
                (λ id c₂ l₂. gives (Later-trans l₁.0 l₂, omega (arith, l₁.1, l₂))))
            (λ e. gives (l₁.0, omega (arith, l₁.1))))
