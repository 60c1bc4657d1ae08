-- ===== src/Server/Conn/Received.antt =====
-- The answer to a connect command, at a client that is a connection of this code too.
use fastlive.Base.{
  ℕ, ◌^◌, ◌≤◌, ◌<◌, ◌≡◌, ◌≢◌, ◌⊎◌, refl, sym, ap, ◌∙◌, arith, List, [], ◌∷◌, ◌++◌, length, ok, true,
  inl, inr, append_assoc, append-nil,
}
use fastlive.Common.{uint_as_bytes, bytes_as_uint32, uint_bytes_big}
use fastlive.Common.Bytes.{bytes_as_uint32-uint_as_bytes}
use fastlive.Chunk.{
  Chunk, Stream, msg_set_chunk_size, msg_set_peer_bandwidth, msg_window_acknowledgement_size,
  msg_amf0_command_message,
}
use fastlive.Chunk.Message.{new_chunk}
use fastlive.Connection.{Connection}
use fastlive.Connection.Handlers.{
  handle_set_chunk_size_message, handle_window_acknowledgement_size_message,
}
use fastlive.Connection.Receive.{recv_integral_message}
use fastlive.Connection.Receive.Read.{fed}
use fastlive.Connection.Receive.Chunk.{stored}
use fastlive.Connection.RoundTrip.{arrived}
use fastlive.Connection.RoundTrip.Delivery.{recv_integral_message-wire}
use fastlive.Connection.Send.Wire.{wire}
use fastlive.Server.Amf.{Amf}
use fastlive.Server.Broker.{Broker}
use fastlive.Server.Player.{done}
use fastlive.Server.Conn.{ServerConn}
use fastlive.Server.Conn.Dispatch.{handle_message, put_reset, with_connection}
use fastlive.Server.Conn.Cycle.{serve_message}
use fastlive.Server.Conn.Replies.{wires}
use fastlive.Server.Conn.Connect.{connect_chunks, window_chunk, command_chunk}
use fastlive.Server.Conn.Listening.{
  IsListening, control_chunk, control_chunk-IsReceivable, after, after-IsListening, serve_one,
}

module _ (amf : Amf) (b : Broker) (csid : ℕ) (apart : 2 ≢ csid) where
  -- The announcements that change nothing at the client: the window size and the bandwidth.
  serve_quiet :
      (cl : ServerConn) (type_id size : ℕ) (bytes rest : List ℕ)
      → IsListening csid cl.connection
      → (type_id ≡ msg_window_acknowledgement_size) ⊎ (type_id ≡ msg_set_peer_bandwidth)
      → 0 < length bytes
      → length bytes ≤ 5
      → 5 ≤ size
      → (serve_message amf
            (with_connection cl
              (fed cl.connection (wire (control_chunk type_id bytes) size ++ rest)))
            b
          ≡ ok (
              done
                (with_connection cl (after cl.connection (control_chunk type_id bytes) rest), b)))
        × IsListening csid (after cl.connection (control_chunk type_id bytes) rest)
  unfolding handle_message handle_window_acknowledgement_size_message
  serve_quiet cl type_id size bytes rest l t pos short big =
      let v =
        control_chunk-IsReceivable csid type_id bytes cl.connection l (ground (arith, t)) pos
          (omega (arith, short)) in
      (
        serve_one amf b cl
            (with_connection cl (
              fed (stored 2 (arrived (control_chunk type_id bytes) cl.connection) cl.connection)
                rest))
            (control_chunk type_id bytes) size rest v (omega (arith, short, l.holds))
            (omega (arith, short, big))
            (elim t [
              | inl five ↦ rw (handle_message, five) refl
              | inr six ↦ rw (handle_message, six) refl
            ]),
        after-IsListening csid cl.connection (control_chunk type_id bytes) rest l v refl apart,
      )

  -- The announcement of the chunk size.
  serve_chunk_size :
      (cl : ServerConn) (size : ℕ) (rest : List ℕ)
      → IsListening csid cl.connection
      → 5 ≤ size
      → size < 2 ^ 32
      → (cl' : ServerConn) × (serve_message amf
            (with_connection cl (
              fed cl.connection (
                wire (new_chunk 2 4 msg_set_chunk_size 0 (uint_as_bytes size 4 true)) size
                ++ rest)))
            b
          ≡ ok (done (cl', b)))
        × (cl'.connection.input ≡ rest)
        × (cl'.connection.remote_chunk_size ≡ size)
        × IsListening csid cl'.connection
  unfolding handle_message handle_set_chunk_size_message uint_as_bytes uint_bytes_big
  serve_chunk_size cl size rest l big small =
      let bytes : List ℕ = uint_as_bytes size 4 true in
      let msg : Chunk = control_chunk msg_set_chunk_size bytes in
      let v =
        control_chunk-IsReceivable csid msg_set_chunk_size bytes cl.connection l (omega arith)
          (omega arith) (omega arith) in
      let handled : ServerConn = with_connection cl (
        handle_set_chunk_size_message (arrived msg cl.connection)
          (fed (stored 2 (arrived msg cl.connection) cl.connection) rest)) in
      let set : bytes_as_uint32 bytes true ≡ size =
        bytes_as_uint32-uint_as_bytes size 4 true (omega arith) ∙ omega (arith, small) in
      let k = after-IsListening csid cl.connection msg rest l v refl apart in
      (
        with_connection handled (put_reset 2 (arrived msg cl.connection) handled.connection),
        serve_one amf b cl handled msg size rest v (omega (arith, l.holds)) (omega (arith, big))
            refl,
        refl,
        set,
        record { control = k.control; command = k.command; holds = rw set big },
      )

-- A client that is a connection of this code and listens receives the answer to its connect command
-- whole, whatever comes behind: it handles the window size, the peer bandwidth and the chunk size,
-- one after the other, and with the chunk size that it has been told reads the `_result` command
-- on its request's chunk stream.
pub connect_reply-received :
    (amf : Amf) (b : Broker) (req : Stream) (cl : ServerConn) (window_size size : ℕ)
    (bytes rest : List ℕ)
    → IsListening req.csid cl.connection
    → 3 ≤ req.csid
    → req.csid ≤ 65559
    → req.message_stream_id < 2 ^ 32
    → 5 ≤ size
    → size < 2 ^ 32
    → 0 < length bytes
    → length bytes < 2 ^ 24
    → (cl₁ : ServerConn) × (cl₂ : ServerConn) × (cl₃ : ServerConn) × (c₄ : Connection)
      × (s : Stream) × (serve_message amf
            (with_connection cl
              (fed cl.connection (wires size (connect_chunks req window_size size bytes) ++ rest)))
            b
          ≡ ok (done (cl₁, b)))
      × (serve_message amf cl₁ b ≡ ok (done (cl₂, b)))
      × (serve_message amf cl₂ b ≡ ok (done (cl₃, b)))
      × (cl₃.connection.remote_chunk_size ≡ size)
      × (recv_integral_message cl₃.connection ≡ ok ((req.csid, s), c₄))
      × (s.message_type_id ≡ msg_amf0_command_message)
      × (s.chunk_data ≡ bytes)
unfolding uint_as_bytes uint_bytes_big
connect_reply-received amf b req cl window_size size bytes rest l lo hi sid big small pos short =
    let (run₁, l₁) =
      serve_quiet amf b req.csid apart cl msg_window_acknowledgement_size size
        (uint_as_bytes window_size 4 true) rest₁ l (inl refl) (omega arith) (omega arith) big in
    let cl₁ : ServerConn =
      with_connection cl (after cl.connection (window_chunk window_size) rest₁) in
    let (run₂, l₂) =
      serve_quiet amf b req.csid apart cl₁ msg_set_peer_bandwidth size bandwidth rest₂ l₁ (inr refl)
        (omega arith) (omega arith) big in
    let cl₂ : ServerConn =
      with_connection cl₁
        (after cl₁.connection (control_chunk msg_set_peer_bandwidth bandwidth) rest₂) in
    let (cl₃, run₃, left, told, l₃) =
      serve_chunk_size amf b req.csid apart cl₂ size rest₃ l₂ big small in
    (
      cl₁,
      cl₂,
      cl₃,
      _,
      arrived (command_chunk req bytes) cl₃.connection,
      ap (λ input. serve_message amf (with_connection cl (fed cl.connection input)) b) in_order
          ∙ run₁,
      run₂,
      run₃,
      told,
      ap (λ input. recv_integral_message (fed cl₃.connection input)) left
          ∙ ap
              (λ n.
                recv_integral_message
                  (fed cl₃.connection (wire (command_chunk req bytes) n ++ rest)))
              (sym told)
          ∙ recv_integral_message-wire (command_chunk req bytes) cl₃.connection rest (record {
            fits = record {
              short_timestamp = omega arith;
              length_fits = omega (arith, short);
              type_fits = omega arith;
              stream_fits = sid;
            };
            csid_lo = omega (arith, lo);
            csid_hi = hi;
            whole = omega (arith, short);
            not_empty = omega (arith, pos, short);
            chunk_size = omega (arith, told, big);
            idle = l₃.command;
          }),
      refl,
      refl,
    )
  where
    apart : 2 ≢ req.csid
    apart = omega (arith, lo)

    bandwidth : List ℕ
    bandwidth = uint_as_bytes 2500000 4 true ++ (2 ∷ [])

    rest₃ : List ℕ
    rest₃ = wire (command_chunk req bytes) size ++ rest

    rest₂ : List ℕ
    rest₂ = wire (new_chunk 2 4 msg_set_chunk_size 0 (uint_as_bytes size 4 true)) size ++ rest₃

    rest₁ : List ℕ
    rest₁ = wire (control_chunk msg_set_peer_bandwidth bandwidth) size ++ rest₂

    in_order :
        wires size (connect_chunks req window_size size bytes) ++ rest
        ≡ wire (window_chunk window_size) size ++ rest₁
    in_order = simp (append_assoc, append-nil)
