-- ===== src/Server/Options.antt =====
-- pkg/rtmp/server/server.go: the server's options and the connections that it makes. Finding and
-- reading the configuration file and setting up the logger belong to other libraries and are
-- arguments. A negative size or time, which the code treats as 0, is 0 here.
use fastlive.Base.{
  ℕ, ◌<◌, ◌≤◌, ◌≡◌, ◌≢◌, refl, arith, true, [], ◌∷◌, length, ◌==◌, if◌then◌else◌, none,
}
use fastlive.Base.{
  Outcome, ok, ◌>>=◌, Key, codes, Ends, Finishes, returns, Finishes-then, Finishes-if,
}
use fastlive.Connection.{Connection, init}
use fastlive.Server.Broker.{Broker, no_sessions}
use fastlive.Server.Conn.{ServerConn}
use fastlive.Server.Conn.Serve.{new_server_conn}

-- config, without the logger's part. Times are in milliseconds.
pub record Config : Type 0 where
  pub addr : Key
  pub read_buf_size : ℕ
  pub local_chunk_size : ℕ
  pub handshake_timeout : ℕ
  pub playor_publish_timeout : ℕ

-- The defaults of loadOptions.
unfoldable pub with_defaults : Config → Config
with_defaults config = record config {
  addr = if length config.addr == 0 then codes ":1935" else config.addr;
  read_buf_size = if config.read_buf_size == 0 then 8192 else config.read_buf_size;
  local_chunk_size = if config.local_chunk_size == 0 then 60000 else config.local_chunk_size;
  handshake_timeout = if config.handshake_timeout == 0 then 3000 else config.handshake_timeout;
  playor_publish_timeout =
      if config.playor_publish_timeout == 0 then 3000 else config.playor_publish_timeout;
}

-- The path given, or that of the directory beside the program's.
abbrev pub config_path_or : Outcome Key → Key → Outcome Key
config_path_or abs_config_path config_path =
    if length config_path == 0 then abs_config_path else ok config_path

-- Server.loadOptions; the broker is a new one.
unfoldable pub load_options :
    Outcome Key
    → (Key → Outcome Config)
    → (Config → Outcome (Unit {0}))
    → Key
    → Outcome (Config × Broker)
load_options abs_config_path load_config init_logger config_path = do
  path ← config_path_or abs_config_path config_path
  config ← load_config path
  _ ← init_logger config
  ok (with_defaults config, no_sessions)

-- What Serve makes of an accepted socket, which is that of `c`: the options of the configuration
-- and the server's pools.
unfoldable pub accept : Config → ℕ → Connection → Outcome ServerConn
accept config number c =
    new_server_conn true true true true true number
      (record c { local_chunk_size = config.local_chunk_size })

-- Every option has a value that the code can work with.
pub record IsComplete (config : Config) : Type 0 where
  pub addr_given : config.addr ≢ []
  pub reads : 0 < config.read_buf_size
  pub sends : 0 < config.local_chunk_size
  pub shakes : 0 < config.handshake_timeout
  pub waits : 0 < config.playor_publish_timeout

-- A connection of a client that has not said anything.
pub record IsFresh (config : Config) (sc : ServerConn) : Type 0 where
  pub local_gt : 128 < sc.connection.local_chunk_size
  pub local_from :
      128 < config.local_chunk_size → sc.connection.local_chunk_size ≡ config.local_chunk_size
  pub remote_ge : 128 ≤ sc.connection.remote_chunk_size
  pub window_pos : 0 < sc.connection.window_size
  pub nothing_queued : sc.connection.write_buf ≡ []
  pub no_streams : sc.connection.messages ≡ []
  pub no_type : sc.play_info.client_type ≡ 0
  pub no_session : sc.sess ≡ none

with_defaults-IsComplete : (config : Config) → IsComplete (with_defaults config)
unfolding with_defaults
with_defaults-IsComplete config = record {
  addr_given = by_addr config.addr;
  reads = ground arith;
  sends = ground arith;
  shakes = ground arith;
  waits = ground arith;
}
  where
    by_addr : (addr : Key) → (if length addr == 0 then codes ":1935" else addr) ≢ []
    by_addr [] e = cc
    by_addr (x ∷ addr) e = ground (arith, e)

accept-IsFresh :
    (config : Config) (number : ℕ) (c : Connection)
    → (sc : ServerConn) × (accept config number c ≡ ok sc) × IsFresh config sc
unfolding accept new_server_conn init
accept-IsFresh config number c = (
  _,
  refl,
  record {
    local_gt = ground arith;
    local_from = λ h. ground (arith, h);
    remote_ge = ground arith;
    window_pos = ground arith;
    nothing_queued = refl;
    no_streams = refl;
    no_type = refl;
    no_session = refl;
  },
)

-- A server that is made with any configuration has an address, sizes and times that are not 0; and
-- every socket that it accepts becomes a connection with chunks of more than 128 bytes, of the
-- configured size if that is more, with nothing queued, no chunk stream begun, and a client that is
-- no publisher and no player.
pub load_options-accept :
    (abs_config_path : Outcome Key) (load_config : Key → Outcome Config)
    (init_logger : Config → Outcome (Unit {0})) (config_path : Key)
    → Ends abs_config_path
    → ((path : Key) → Ends (load_config path))
    → ((config : Config) → Ends (init_logger config))
    → Finishes
        (λ (r : Config × Broker).
          IsComplete r.0
          × ((number : ℕ) (c : Connection)
              → (sc : ServerConn) × (accept r.0 number c ≡ ok sc) × IsFresh r.0 sc))
        (load_options abs_config_path load_config init_logger config_path)
unfolding load_options
load_options-accept abs_config_path load_config init_logger config_path h k l =
    Finishes-then (Finishes-if (length config_path == 0) (λ _. h) (λ _. returns tt)) (λ path _.
      Finishes-then (k path) (λ config _.
        Finishes-then (l config) (λ _ _.
          returns (with_defaults-IsComplete config, accept-IsFresh (with_defaults config)))))
