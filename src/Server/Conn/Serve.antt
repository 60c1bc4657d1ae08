-- ===== src/Server/Conn/Serve.antt =====
-- server_conn.go: newServerConn, handshake, recvChunkStream and serve: a client from its
-- connection to its end.
use fastlive.Base.{
  ℕ, zero, suc, ◌+◌, ◌%◌, ◌^◌, Bool, true, false, not, List, ◌==◌, if◌then◌else◌, length,
}
use fastlive.Base.{Option, none, some, Outcome, ok, err, panic, stuck, ◌>>=◌, Error, Key}
use fastlive.Base.{◌&&◌, play_timeout, no_server, handshake_unfinished}
use fastlive.Connection.{Connection, init}
use fastlive.Handshake.Serve.{with_client}
use fastlive.Server.Amf.{Amf}
use fastlive.Server.Client.{no_connect_info, no_play_info, no_meta_data}
use fastlive.Server.Player.{done, blocked}
use fastlive.Server.Broker.{Broker}
use fastlive.Server.Conn.{ServerConn}
use fastlive.Server.Conn.Cycle.{Ending, ended, waits, serve_message, publish_cycle, play_cycle}

-- newServerConn and loadOptions, told which of the server, the socket and the three pools are
-- given. The options set the fields of `c`.
unfoldable pub new_server_conn :
    Bool → Bool → Bool → Bool → Bool → ℕ → Connection → Outcome ServerConn
new_server_conn server rwc decode_hdr_pool encode_hdr_pool new_chunk_pool number c =
    if not server then err no_server else (do
      c ← init rwc decode_hdr_pool encode_hdr_pool new_chunk_pool c
      ok (record {
        number = number;
        connection = c;
        connect_info = no_connect_info;
        play_info = no_play_info;
        meta = no_meta_data;
        sess = none;
        handshake_status = 0;
        handshake_err = none;
      }))

-- The arguments that belong to libraries and to the clock.
pub record World : Type 0 where
  pub amf : Amf
  -- rewriting a metadata packet for a player
  pub reform : List ℕ → Outcome (List ℕ)
  pub hmac : List ℕ → List ℕ → List ℕ
  pub random : ℕ → ℕ → List ℕ
  -- whether the handshake's time runs out first
  pub slow_handshake : Bool
  -- whether the time for a publish or play command is out when so many rounds are left
  pub late : ℕ → Bool
  -- the client's remote address
  pub address : Key

-- The result of WithClient, kept for later calls.
unfoldable pub keep_handshake :
    ServerConn → Outcome ((Unit {0}) × Connection) → Outcome (Option Error × ServerConn)
keep_handshake sc (ok (_, c)) =
    let status : ℕ = (sc.handshake_status + 1) % 2 ^ 32 in
    if status == 1
    then ok (none, record sc { connection = c; handshake_status = status })
    else ok (
      some handshake_unfinished,
      record sc {
        connection = c;
        handshake_status = status;
        handshake_err = some handshake_unfinished;
      },
    )
keep_handshake sc (err e) = ok (some e, record sc { handshake_err = some e })
keep_handshake sc panic = panic
keep_handshake sc stuck = stuck

module _ (world : World) where
  -- conn.handshake
  unfoldable pub handshake : ServerConn → Outcome (Option Error × ServerConn)
  handshake sc = elim sc.handshake_err [
    | some e ↦ ok (some e, sc)
    | none ↦
        if sc.handshake_status == 1
        then ok (none, sc)
        else keep_handshake sc
            (with_client world.hmac world.random world.slow_handshake sc.connection)
  ]

  -- recvChunkStream: the loop runs on fuel.
  unfoldable pub recv_loop : ℕ → ServerConn → Broker → Outcome Ending
  recv_loop zero sc b = stuck
  recv_loop (suc fuel) sc b = elim (serve_message world.amf sc b) [
    | ok r ↦ elim r [
      | blocked ↦ ok waits
      | done (sc, b) ↦ elim (sc.play_info.client_type == 1) [
        | true ↦ publish_cycle world.amf sc b
        | false ↦ elim (sc.play_info.client_type == 2) [
          | true ↦ play_cycle world.reform world.address sc b
          | false ↦ elim (sc.play_info.client_type == 0 && world.late fuel) [
            | true ↦ ok (ended play_timeout b)
            | false ↦ recv_loop fuel sc b
          ]
        ]
      ]
    ]
    | err e ↦ ok (ended e b)
    | panic ↦ panic
    | stuck ↦ stuck
  ]

  unfoldable pub recv_chunk_stream : ServerConn → Broker → Outcome Ending
  recv_chunk_stream sc b = recv_loop (suc (length sc.connection.input)) sc b

  -- serve, up to the Close that ends it.
  unfoldable pub serve : ServerConn → Broker → Outcome Ending
  serve sc b = do
    (failed, sc) ← handshake sc
    elim failed [ some e ↦ ok (ended e b) | none ↦ recv_chunk_stream sc b ]
