-- ===== src/Connection/Send/Rounds.antt =====
-- The loop of SendIntegralMessage, round by round.
use fastlive.Base.{
  ℕ, zero, suc, ◌+◌, ◌-◌, ◌*◌, ◌/◌, ◌%◌, ◌^◌, ◌≤◌, ◌<◌, ◌≡◌, refl, sym, ap, ap₂, ◌∙◌, arith,
}
use fastlive.Base.{List, ◌++◌, length, take, drop, All, ok, ◌≢◌}
use fastlive.Base.{min, append-nil, append_assoc, length-append, length-take, length-drop}
use fastlive.Base.{le→leb, lt→ltb, lt→leb, ne→==, drop-drop}
use fastlive.Chunk.{Chunk}
use fastlive.Chunk.Slice.{Slice}
use fastlive.Chunk.Bytes.{header_bytes}
use fastlive.Connection.{Connection, contents}
use fastlive.Connection.Send.{chunk_header, send_chunk, send_loop}
use fastlive.Connection.Send.Wire.{chunks, wire, first_chunk_bytes, next_header}
use fastlive.Connection.Send.Refine.{
  Ready, IsSendable, basic_size, queue, Queued, send_chunk_lem, chunk_part, chunk_wire,
}

-- What a number of rounds queues, from the chunk with number `idx` on.
abbrev tail_wire : Chunk → ℕ → ℕ → ℕ → List ℕ
tail_wire msg size rounds idx =
    chunks (next_header msg) size rounds (drop (idx * size) msg.chunk_data)

pub send_loop-zero :
    (msg : Chunk) (rounds idx write_size : ℕ) (c : Connection)
    → send_loop msg rounds idx 0 write_size c ≡ ok (write_size, c)
unfolding send_loop
send_loop-zero msg zero idx write_size c = refl
send_loop-zero msg (suc rounds) idx write_size c = refl

-- A round that sends a chunk.
pub send_loop-suc :
    (msg : Chunk) (rounds idx un_write write_size : ℕ) (c : Connection) {n k : ℕ} {c' : Connection}
    → un_write ≢ 0
    → send_chunk msg idx c ≡ ok ((n, k), c')
    → send_loop msg (suc rounds) idx un_write write_size c
      ≡ send_loop msg rounds
          (suc idx)
          ((msg.message_length + 2 ^ 32 - k) % 2 ^ 32)
          (write_size + n)
          c'
unfolding send_loop
send_loop-suc msg rounds idx un_write write_size c h run =
    rw (ne→== un_write 0 h, send_loop) (rw run refl)

first-chunk : (msg : Chunk) (size : ℕ) → chunk_wire msg size 0 ≡ first_chunk_bytes msg size
first-chunk msg size =
    let e : 0 * size ≡ 0 = omega arith in
    ap (λ n. header_bytes (chunk_header msg 0) ++ take size (drop n msg.chunk_data)) e

next-drop :
    (msg : Chunk) (size idx : ℕ)
    → drop size (drop (idx * size) msg.chunk_data) ≡ drop (suc idx * size) msg.chunk_data
next-drop msg size idx =
    drop-drop (idx * size) size msg.chunk_data
    ∙ (let e : idx * size + size ≡ suc idx * size = omega arith in
        ap (λ n. drop n msg.chunk_data) e)

round-le :
    (size len rounds idx : ℕ) → 0 < size → suc rounds + idx ≡ len / size + 1 → idx * size ≤ len
round-le size len rounds idx h e = grind arith

-- The chunks behind the first have one header.
later-header :
    (msg : Chunk) (idx : ℕ) → 0 < idx → header_bytes (chunk_header msg idx) ≡ next_header msg
later-header msg idx h = rw (lt→ltb 0 idx h) refl

tail_wire-suc :
    (msg : Chunk) (size rounds idx : ℕ)
    → 0 < idx
    → tail_wire msg size (suc rounds) idx
      ≡ chunk_wire msg size idx ++ tail_wire msg size rounds (suc idx)
unfolding chunks
tail_wire-suc msg size rounds idx h =
    rw
      (
        later-header msg idx h,
        next-drop msg size idx,
        append_assoc (next_header msg) (chunk_part msg size idx)
            (tail_wire msg size rounds (suc idx)),
      )
      refl

-- While the message is longer than a chunk, the code's count of what is left is not 0.
pub un_write-ne :
    (msg : Chunk) (size idx : ℕ)
    → size < msg.message_length
    → msg.message_length < 2 ^ 32
    → (msg.message_length + 2 ^ 32 - length (chunk_part msg size idx)) % 2 ^ 32 ≢ 0
un_write-ne msg size idx long bound =
    let part : length (chunk_part msg size idx) ≤ size =
      omega (arith, length-take size (drop (idx * size) msg.chunk_data)) in
    omega arith

-- From the second chunk on, the loop runs through all its rounds.
pub send_loop_lem :
    (msg : Chunk) (rounds idx un_write write_size : ℕ) (c : Connection) (n : ℕ)
    → basic_size msg ≤ n
    → n ≤ 18
    → IsSendable msg c.local_chunk_size
    → c.local_chunk_size < msg.message_length
    → rounds + idx ≡ msg.message_length / c.local_chunk_size + 1
    → 0 < idx
    → un_write ≢ 0
    → All (Ready n) c.encode_hdr_pool
    → (buf : List Slice) × (pool : List Slice) × (send_loop msg rounds idx un_write write_size c
        ≡ ok (write_size + length (tail_wire msg c.local_chunk_size rounds idx), queue c buf pool))
      × Queued n c (tail_wire msg c.local_chunk_size rounds idx) buf pool
unfolding send_loop chunks
send_loop_lem msg zero idx un_write write_size c n small bound s long count pos more r = (
  c.write_buf,
  c.encode_hdr_pool,
  ap (λ n. ok (n, c)) (omega arith),
  record { queued = sym (append-nil _); rest = r },
)
send_loop_lem msg (suc rounds) idx un_write write_size c n small bound s long count pos more r =
    let (buf, pool, run, q) =
      send_chunk_lem msg idx c s (round-le _ _ rounds idx s.pos_size count) n small bound r in
    let (buf', pool', run', q') =
      send_loop_lem msg rounds (suc idx)
        ((msg.message_length + 2 ^ 32 - length (chunk_part msg c.local_chunk_size idx)) % 2 ^ 32)
        (write_size + length (chunk_wire msg c.local_chunk_size idx)) (queue c buf pool) n small
        bound s long (omega arith) (omega arith) (un_write-ne msg _ idx long s.bound) q.rest in
    (
      buf',
      pool',
      send_loop-suc msg rounds idx un_write write_size c more run
          ∙ run'
          ∙ ap (λ n. ok (n, queue c buf' pool'))
              (omega (
                arith,
                ap length (tail_wire-suc msg c.local_chunk_size rounds idx pos),
                length-append (chunk_wire msg c.local_chunk_size idx)
                    (tail_wire msg c.local_chunk_size rounds (suc idx)),
              )),
      record {
        queued =
            q'.queued
            ∙ rw
                (
                  q.queued,
                  tail_wire-suc msg c.local_chunk_size rounds idx pos,
                  append_assoc (contents c.write_buf),
                )
                refl;
        rest = q'.rest;
      },
    )

pub length-first :
    (msg : Chunk) (size : ℕ)
    → IsSendable msg size
    → length (chunk_part msg size 0) ≡ min size msg.message_length
length-first msg size s = omega (
  arith,
  length-take size (drop (0 * size) msg.chunk_data),
  length-drop (0 * size) msg.chunk_data,
  s.whole,
)

pub wire-short :
    (msg : Chunk) (size : ℕ) → msg.message_length ≤ size → wire msg size ≡ chunk_wire msg size 0
unfolding wire
wire-short msg size h = rw (le→leb msg.message_length size h) (sym (first-chunk msg size))

pub wire-long :
    (msg : Chunk) (size : ℕ)
    → size < msg.message_length
    → wire msg size ≡ chunk_wire msg size 0 ++ tail_wire msg size (msg.message_length / size) 1
unfolding wire
wire-long msg size h =
    let e : size ≡ 1 * size = omega arith in
    rw (lt→leb msg.message_length size h) (
      ap₂ ◌++◌ (sym (first-chunk msg size)) (
        ap (λ n. chunks (next_header msg) size (msg.message_length / size) (drop n msg.chunk_data))
          e))
