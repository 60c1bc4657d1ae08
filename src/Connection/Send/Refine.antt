-- ===== src/Connection/Send/Refine.antt =====
-- SendIntegralMessage queues the bytes of `Wire.wire`.
use fastlive.Base.{ℕ, ◌+◌, ◌-◌, ◌*◌, ◌^◌, ◌≤◌, ◌<◌, ◌≡◌, refl, sym, ap, ap₂, ◌∙◌, arith}
use fastlive.Base.{List, [], ◌∷◌, ◌++◌, length, take, drop, All, ok, ltb, if◌then◌else◌}
use fastlive.Base.{
  replicate, append-nil, append_assoc, length-append, length-take, length-drop, take-all,
}
use fastlive.Base.{le→leb, ltb→lt, Bool-cases, inl, inr}
use fastlive.Chunk.{Chunk}
use fastlive.Chunk.Slice.{Slice, cap, front}
use fastlive.Chunk.EncodeLaws.{encode_lem, length-header_bytes}
use fastlive.Chunk.BasicLaws.{length-basic_bytes}
use fastlive.Chunk.Bytes.{basic_bytes, header_bytes}
use fastlive.Connection.{Connection, contents, write}
use fastlive.Connection.Send.{get_header_buf, sub_slice, shorten, chunk_header, send_chunk}

-- A header buffer that holds any header of a chunk stream whose basic header has `n` bytes.
abbrev pub Ready : ℕ → Slice → Type 0
Ready n p = (14 ≤ cap p) × (n ≤ p.len)

pub contents-append : (ps qs : List Slice) → contents (ps ++ qs) ≡ contents ps ++ contents qs
contents-append [] qs = refl
contents-append (p ∷ ps) qs =
    ap (λ l. front p p.len ++ l) (contents-append ps qs)
    ∙ sym (append_assoc (front p p.len) (contents ps) (contents qs))

-- Getting a buffer out of a pool of ready ones.
record Got (n : ℕ) (c : Connection) : Type 0 where
  buf : Slice
  pool : List Slice
  run : get_header_buf c ≡ ok (buf, record c { encode_hdr_pool = pool })
  ready : Ready n buf
  rest : All (Ready n) pool

got :
    (n : ℕ) (c : Connection) (ps : List Slice)
    → c.encode_hdr_pool ≡ ps
    → n ≤ 18
    → All (Ready n) ps
    → Got n c
unfolding get_header_buf
got n c [] e h r = record {
  buf = record { arr = replicate 18 0; len = 18 };
  pool = [];
  run = rw e refl;
  ready = omega arith;
  rest = tt;
}
got n c (p ∷ ps) e h r = record { buf = p; pool = ps; run = rw e refl; ready = r.0; rest = r.1 }

-- Where `take (hi - lo)` from `lo` on is a chunk: `hi` is one chunk further on, or the end.
take-clip :
    (size hi : ℕ) (ys : List ℕ)
    → hi ≡ (if ltb (length ys) size then length ys else size)
    → take hi ys ≡ take size ys
take-clip size hi ys e = elim (Bool-cases (ltb (length ys) size)) [
  | inl short ↦
      let all : hi ≡ length ys = e ∙ rw short refl in
      rw (all, take-all (length ys) ys (omega arith))
        (sym (take-all size ys (omega (arith, ltb→lt (length ys) size short))))
  | inr long ↦ ap (λ n. take n ys) (e ∙ rw long refl)
]

-- A message that the code can send in chunks of `size` bytes.
pub record IsSendable (msg : Chunk) (size : ℕ) : Type 0 where
  pub csid_lo : 2 ≤ msg.csid
  pub csid_hi : msg.csid ≤ 65599
  pub whole : length msg.chunk_data ≡ msg.message_length
  pub bound : msg.message_length < 2 ^ 32
  pub pos_size : 0 < size

-- The size of the basic header of a chunk stream, which the format does not change.
abbrev pub basic_size : Chunk → ℕ
basic_size msg = length (basic_bytes 0 msg.csid)

pub basic_size-le : (msg : Chunk) → basic_size msg ≤ 3
basic_size-le msg = (length-basic_bytes 0 msg.csid).1

length-basic_bytes_fmt :
    (fmt csid : ℕ) → length (basic_bytes fmt csid) ≡ length (basic_bytes 0 csid)
unfolding basic_bytes
length-basic_bytes_fmt fmt csid = ground arith

-- The state after a step that queued something: only the queue and the pool have changed.
abbrev pub queue : Connection → List Slice → List Slice → Connection
queue c buf pool = record c { write_buf = buf; encode_hdr_pool = pool }

-- `buf` holds what `c` had queued and then `bytes`; the new pool is ready as the old one was.
pub record Queued (n : ℕ) (c : Connection) (bytes : List ℕ) (buf pool : List Slice) : Type 0 where
  pub queued : contents buf ≡ contents c.write_buf ++ bytes
  pub rest : All (Ready n) pool

-- The bytes of the chunk with number `idx`.
abbrev pub chunk_part : Chunk → ℕ → ℕ → List ℕ
chunk_part msg size idx = take size (drop (idx * size) msg.chunk_data)

abbrev pub chunk_wire : Chunk → ℕ → ℕ → List ℕ
chunk_wire msg size idx = header_bytes (chunk_header msg idx) ++ chunk_part msg size idx

module _ (msg : Chunk) (idx : ℕ) (c : Connection) (s : IsSendable msg c.local_chunk_size)
    (h : idx * c.local_chunk_size ≤ msg.message_length) where
  -- The end of the chunk in the data.
  abbrev pub chunk_end : ℕ
  chunk_end =
      if ltb msg.message_length (idx * c.local_chunk_size + c.local_chunk_size)
      then msg.message_length
      else idx * c.local_chunk_size + c.local_chunk_size

  abbrev pub chunk_start : ℕ
  chunk_start = idx * c.local_chunk_size

  pub chunk_end_bounds : (chunk_start ≤ chunk_end) × (chunk_end ≤ length msg.chunk_data)
  chunk_end_bounds = ground (arith, s)

  part_lem :
      take (chunk_end - chunk_start) (drop chunk_start msg.chunk_data)
      ≡ chunk_part msg c.local_chunk_size idx
  part_lem =
      take-clip c.local_chunk_size _ (drop chunk_start msg.chunk_data)
        (rw length-drop (ground (arith, s)))

  pub length-chunk_part : length (chunk_part msg c.local_chunk_size idx) ≡ chunk_end - chunk_start
  length-chunk_part = rw (length-take, length-drop) (ground (arith, s))

  pub send_chunk_lem :
      (n : ℕ)
      → basic_size msg ≤ n
      → n ≤ 18
      → All (Ready n) c.encode_hdr_pool
      → (buf : List Slice) × (pool : List Slice) × (send_chunk msg idx c
          ≡ ok (
            (
              length (chunk_wire msg c.local_chunk_size idx),
              length (chunk_part msg c.local_chunk_size idx),
            ),
            queue c buf pool,
          ))
        × Queued n c (chunk_wire msg c.local_chunk_size idx) buf pool
  unfolding send_chunk sub_slice shorten write
  send_chunk_lem n small bound r =
      let g : Got n c = got n c _ refl bound r in
      let (q, run, bytes, same_cap, same_len) =
        encode_lem (chunk_header msg idx) g.buf (ground arith) s.csid_lo s.csid_hi
          (omega
            (arith, g.ready, small, length-basic_bytes_fmt (if ltb 0 idx then 3 else 0) msg.csid))
          g.ready.0 in
      let head : Slice = record q { len = length hdr } in
      let body : Slice = record {
        arr = drop chunk_start msg.chunk_data;
        len = chunk_end - chunk_start;
      } in
      (
        (c.write_buf ++ head ∷ []) ++ body ∷ [],
        g.pool,
        rw
            (
              le→leb chunk_start chunk_end chunk_end_bounds.0,
              le→leb chunk_end (length msg.chunk_data) chunk_end_bounds.1,
              g.run,
              run,
              le→leb (length hdr) (length q.arr)
                  (omega (arith, same_cap, g.ready, length-header_bytes (chunk_header msg idx))),
            )
            (ap₂ (λ n m. ok ((n, m), queue c ((c.write_buf ++ head ∷ []) ++ body ∷ []) g.pool))
              (omega (
                arith,
                length-append hdr (chunk_part msg c.local_chunk_size idx),
                length-chunk_part,
              ))
              (omega (arith, length-chunk_part, chunk_end_bounds, s))),
        record {
          queued =
              rw
                (
                  contents-append (c.write_buf ++ head ∷ []) (body ∷ []),
                  contents-append c.write_buf (head ∷ []),
                  bytes,
                  part_lem,
                  append-nil hdr,
                  append-nil (chunk_part msg c.local_chunk_size idx),
                  append_assoc (contents c.write_buf) hdr,
                )
                refl;
          rest = g.rest;
        },
      )
    where
      hdr : List ℕ
      hdr = header_bytes (chunk_header msg idx)
