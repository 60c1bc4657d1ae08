-- ===== src/Connection/Send/Whole.antt =====
-- SendIntegralMessage on a whole message.
use fastlive.Base.{ℕ, ◌+◌, ◌-◌, ◌/◌, ◌%◌, ◌^◌, ◌≤◌, ◌<◌, ◌≡◌, refl, ap, ◌∙◌, arith}
use fastlive.Base.{List, length, All, ok, leb}
use fastlive.Base.{append_assoc, length-append}
use fastlive.Base.{ne→==, leb→le, leb→lt, Bool-cases, inl, inr}
use fastlive.Chunk.{Chunk}
use fastlive.Chunk.Slice.{Slice}
use fastlive.Connection.{Connection, contents}
use fastlive.Connection.Send.{send_integral_message}
use fastlive.Connection.Send.Wire.{wire}
use fastlive.Connection.Send.Refine.{
  Ready, IsSendable, basic_size, basic_size-le, queue, Queued, send_chunk_lem, chunk_part,
  chunk_wire,
}
use fastlive.Connection.Send.Rounds.{
  send_loop-zero, send_loop-suc, un_write-ne, send_loop_lem, length-first, wire-short, wire-long,
}

-- The result of a send that queued `bytes`, where the pool's buffers hold a basic header of `n`
-- bytes.
abbrev pub SendsWith : ℕ → Chunk → Connection → List ℕ → Type 0
SendsWith n msg c bytes =
    (buf : List Slice) × (pool : List Slice) × (send_integral_message msg c
      ≡ ok (length bytes, queue c buf pool))
    × Queued n c bytes buf pool

abbrev pub Sends : Chunk → Connection → List ℕ → Type 0
Sends msg = SendsWith (basic_size msg) msg

module _ (msg : Chunk) (c : Connection) (s : IsSendable msg c.local_chunk_size)
    (h : 0 < msg.message_length) (n : ℕ) (small : basic_size msg ≤ n) (n_le : n ≤ 18)
    (r : All (Ready n) c.encode_hdr_pool) where
  send-short :
      msg.message_length ≤ c.local_chunk_size → SendsWith n msg c (wire msg c.local_chunk_size)
  unfolding send_integral_message
  send-short short =
      let (buf, pool, run, q) = send_chunk_lem msg 0 c s (omega arith) n small n_le r in
      let nothing_left : (msg.message_length
              + 2 ^ 32
              - length (chunk_part msg c.local_chunk_size 0))
            % 2 ^ 32
          ≡ 0 =
        omega (arith, length-first msg c.local_chunk_size s, s) in
      rw (wire-short msg c.local_chunk_size short) (
        buf,
        pool,
        rw (ne→== msg.message_length 0 (omega arith), ne→== c.local_chunk_size 0 (omega (arith, s)))
            (send_loop-suc msg _ 0 msg.message_length 0 c (omega arith) run
              ∙ rw (nothing_left, send_loop-zero msg)
                  (ap (λ n. ok (n, queue c buf pool)) (omega arith))),
        q,
      )

  send-long :
      c.local_chunk_size < msg.message_length → SendsWith n msg c (wire msg c.local_chunk_size)
  unfolding send_integral_message
  send-long long =
      let (buf, pool, run, q) = send_chunk_lem msg 0 c s (omega arith) n small n_le r in
      let (buf', pool', run', q') =
        send_loop_lem msg (msg.message_length / c.local_chunk_size) 1
          ((msg.message_length + 2 ^ 32 - length (chunk_part msg c.local_chunk_size 0)) % 2 ^ 32)
          (0 + length (chunk_wire msg c.local_chunk_size 0)) (queue c buf pool) n small n_le s long
          refl (omega arith) (un_write-ne msg _ 0 long s.bound) q.rest in
      rw (wire-long msg c.local_chunk_size long) (
        buf',
        pool',
        rw
            (
              ne→== msg.message_length 0 (omega arith),
              ne→== c.local_chunk_size 0 (omega (arith, s)),
              s.whole,
            )
            (send_loop-suc msg _ 0 msg.message_length 0 c (omega arith) run
              ∙ run'
              ∙ ap (λ n. ok (n, queue c buf' pool'))
                  (omega (arith, length-append (chunk_wire msg c.local_chunk_size 0)))),
        record {
          queued = q'.queued ∙ rw (q.queued, append_assoc (contents c.write_buf)) refl;
          rest = q'.rest;
        },
      )

-- The same for buffers of any size that suffices.
pub send_integral_message-wire_with :
    (n : ℕ) (msg : Chunk) (c : Connection)
    → basic_size msg ≤ n
    → n ≤ 18
    → IsSendable msg c.local_chunk_size
    → 0 < msg.message_length
    → All (Ready n) c.encode_hdr_pool
    → SendsWith n msg c (wire msg c.local_chunk_size)
send_integral_message-wire_with n msg c small n_le s h r =
    elim (Bool-cases (leb msg.message_length c.local_chunk_size)) [
      | inl short ↦ send-short msg c s h n small n_le r (leb→le _ _ short)
      | inr long ↦ send-long msg c s h n small n_le r (leb→lt _ _ long)
    ]

-- Sending a message into a pool of ready buffers queues exactly its wire form and returns that
-- form's length; nothing else of the connection changes, and the pool stays ready.
pub send_integral_message-wire :
    (msg : Chunk) (c : Connection)
    → IsSendable msg c.local_chunk_size
    → 0 < msg.message_length
    → All (Ready (basic_size msg)) c.encode_hdr_pool
    → Sends msg c (wire msg c.local_chunk_size)
send_integral_message-wire msg c s h r =
    send_integral_message-wire_with (basic_size msg) msg c (omega arith)
      (omega (arith, basic_size-le msg)) s h r
