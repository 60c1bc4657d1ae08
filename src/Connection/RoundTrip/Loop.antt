-- ===== src/Connection/RoundTrip/Loop.antt =====
-- The loop of RecvIntegralMessage on the chunks behind the first.
use fastlive.Base.{ℕ, zero, suc, ◌+◌, ◌-◌, ◌*◌, ◌/◌, ◌%◌, ◌≤◌, ◌<◌, ◌≡◌, refl, ap, ◌∙◌, arith, min}
use fastlive.Base.{List, ◌++◌, length, take, drop, ok, leb, true, false}
use fastlive.Base.{
  Bool, take-nil, append-nil, append_assoc, length-take, length-drop, drop-drop, drop-all,
}
use fastlive.Base.{ne→==, eq→==, leb→le, leb→lt, Bool-cases, inl, inr, some}
use fastlive.Base.{last_piece, lt-suc_div-mul}
use fastlive.Chunk.{Header, Stream}
use fastlive.Chunk.Bytes.{header_bytes}
use fastlive.Connection.{Connection, find}
use fastlive.Connection.Send.Wire.{chunks}
use fastlive.Connection.Receive.{read_chunk, receive_loop}
use fastlive.Connection.Receive.Read.{fed}
use fastlive.Connection.Receive.Body.{partial}
use fastlive.Connection.Receive.Chunk.{
  stored, find-store, store-store, Reads, UnderWay, read_chunk-next,
}
use fastlive.Connection.RoundTrip.{left_over}

pick_true : {A : Type 0} {b : Bool} (x y : A) → b ≡ true → (elim b [ true ↦ x | false ↦ y ]) ≡ x
pick_true {b = true} x y e = refl
pick_true {b = false} x y e = cc

pick_false : {A : Type 0} {b : Bool} (x y : A) → b ≡ false → (elim b [ true ↦ x | false ↦ y ]) ≡ y
pick_false {b = true} x y e = cc
pick_false {b = false} x y e = refl

pub receive_loop-done :
    (fuel : ℕ) (c : Connection) {k : ℕ} {s : Stream} {c' : Connection}
    → read_chunk c ≡ ok ((k, s), c')
    → s.is_intergral ≡ true
    → receive_loop (suc fuel) c ≡ ok ((k, s), c')
unfolding receive_loop
receive_loop-done fuel c e i = rw e (pick_true _ _ i)

pub receive_loop-more :
    (fuel : ℕ) (c : Connection) {k : ℕ} {s : Stream} {c' : Connection}
    → read_chunk c ≡ ok ((k, s), c')
    → s.is_intergral ≡ false
    → receive_loop (suc fuel) c ≡ receive_loop fuel c'
unfolding receive_loop
receive_loop-more fuel c e i = rw e (pick_false _ _ i)

chunks-suc :
    (h : List ℕ) (size n : ℕ) (bytes rest : List ℕ)
    → chunks h size (suc n) bytes ++ rest
      ≡ h ++ (take size bytes ++ (chunks h size n (drop size bytes) ++ rest))
unfolding chunks
chunks-suc h size n bytes rest =
    append_assoc h (take size bytes ++ chunks h size n (drop size bytes)) rest
    ∙ ap (λ l. h ++ l) (append_assoc (take size bytes) (chunks h size n (drop size bytes)) rest)

-- What is left on the wire when the last byte of a message has been read.
chunks_behind :
    (h bytes : List ℕ) (size n idx : ℕ)
    → 0 < size
    → idx * size < length bytes
    → length bytes ≤ idx * size + size
    → suc n + idx ≡ length bytes / size + 1
    → chunks h size n (drop size (drop (idx * size) bytes)) ≡ left_over h (length bytes) size
unfolding left_over chunks
chunks_behind h bytes size n idx pos lo hi count =
    elim (last_piece (length bytes) size idx pos lo hi) [
      | inl (q, r) ↦ let e : n ≡ 0 = omega arith in rw (e, ne→== (length bytes % size) 0 r) refl
      | inr (q, r) ↦
          let e : n ≡ 1 = omega arith in
          rw
            (
              e,
              eq→== (length bytes % size) 0 r,
              drop-drop (idx * size) size bytes,
              drop-all (idx * size + size) bytes hi,
            )
            (rw (take-nil size, append-nil) refl)
    ]

module _ (h : Header) (s : Stream) (bytes rest : List ℕ) (u : UnderWay s bytes) (hf : h.fmt ≡ 3)
    (lo : 2 ≤ h.csid) (hi : h.csid ≤ 65559) where
  -- The stream and the connection when the whole message has been read.
  abbrev pub done : Connection → List ℕ → Connection
  done c input = fed (stored h.csid (partial s bytes (length bytes)) c) input

  abbrev pub later_chunks : Connection → ℕ → ℕ → List ℕ
  later_chunks c n idx =
      chunks (header_bytes h) c.remote_chunk_size n (drop (idx * c.remote_chunk_size) bytes) ++ rest

  abbrev next_length : Connection → ℕ → ℕ
  next_length c idx =
      idx * c.remote_chunk_size
      + length (take c.remote_chunk_size (drop (idx * c.remote_chunk_size) bytes))

  read_chunk-later :
      (n idx : ℕ) (c : Connection)
      → 0 < idx * c.remote_chunk_size
      → idx * c.remote_chunk_size < length bytes
      → find h.csid c.messages ≡ some (partial s bytes (idx * c.remote_chunk_size))
      → Reads c (later_chunks c (suc n) idx) h.csid s bytes (next_length c idx) (
          chunks
            (header_bytes h)
            c.remote_chunk_size
            n
            (drop c.remote_chunk_size (drop (idx * c.remote_chunk_size) bytes))
          ++ rest)
  read_chunk-later n idx c pos more known =
      rw
        (chunks-suc (header_bytes h) c.remote_chunk_size n (drop (idx * c.remote_chunk_size) bytes)
          rest)
        (read_chunk-next h s bytes
          (chunks (header_bytes h) c.remote_chunk_size n
              (drop c.remote_chunk_size (drop (idx * c.remote_chunk_size) bytes))
            ++ rest)
          (idx * c.remote_chunk_size) c hf lo hi u known pos more)

  -- The later chunks of a message are read to its end; of the input only what the last chunk
  -- leaves and what follows it remains.
  pub receive_loop-chunks :
      (n idx fuel : ℕ) (c : Connection)
      → 0 < c.remote_chunk_size
      → 0 < idx
      → idx * c.remote_chunk_size < length bytes
      → n + idx ≡ length bytes / c.remote_chunk_size + 1
      → n ≤ fuel
      → find h.csid c.messages ≡ some (partial s bytes (idx * c.remote_chunk_size))
      → receive_loop fuel (fed c (later_chunks c n idx))
        ≡ ok (
          (h.csid, partial s bytes (length bytes)),
          done c (left_over (header_bytes h) (length bytes) c.remote_chunk_size ++ rest),
        )
  receive_loop-chunks zero idx fuel c pos first more count room known = absurd (
      omega (
        arith,
        lt-suc_div-mul (length bytes) c.remote_chunk_size pos,
        ap (λ (k : ℕ). k * c.remote_chunk_size) count,
      ))
  receive_loop-chunks (suc n) idx zero c pos first more count room known = absurd (omega arith)
  receive_loop-chunks (suc n) idx (suc fuel) c pos first more count room known =
      elim (Bool-cases (leb (length bytes) (idx * size + size))) [
        | inl last ↦
            let e : next_length c idx ≡ length bytes = omega (arith, part, leb→le _ _ last) in
            receive_loop-done fuel _ (read_chunk-later n idx c (grind arith) more known)
              (eq→== (next_length c idx) (length bytes) e)
            ∙ rw
                (
                  e,
                  chunks_behind (header_bytes h) bytes size n idx pos more (leb→le _ _ last) count,
                )
                refl
        | inr not_last ↦
            let e : next_length c idx ≡ suc idx * size = omega (arith, part, leb→lt _ _ not_last) in
            receive_loop-more fuel _ (read_chunk-later n idx c (grind arith) more known)
              (ne→== (next_length c idx) (length bytes) (omega (arith, e, leb→lt _ _ not_last)))
            ∙ rw (e, drop-drop (idx * size) size bytes, same)
                (receive_loop-chunks n (suc idx) fuel
                    (stored h.csid (partial s bytes (suc idx * size)) c) pos (omega arith)
                    (omega (arith, leb→lt _ _ not_last)) (omega arith) (omega arith)
                    (find-store h.csid (partial s bytes (suc idx * size)) c.messages)
                  ∙ rw (store-store h.csid) refl)
      ]
    where
      size : ℕ
      size = c.remote_chunk_size

      part : length (take size (drop (idx * size) bytes)) ≡ min size (length bytes - idx * size)
      part =
          omega (arith, length-take size (drop (idx * size) bytes), length-drop (idx * size) bytes)

      same : idx * size + size ≡ suc idx * size
      same = omega arith
