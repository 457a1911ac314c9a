-- ===== src/Config.antt =====
-- internal/config/config.go: the configuration that `Load` makes of what viper holds. viper is the
-- parameter; a string of the configuration is only handed on, and a duration is an int64 of nanoseconds.
pub mod Peers
use Prim.Native.String.{String}
use on_cloud_kv.Prelude.{ℕ, Bool, true, false, Option, none, some, List, [], ◌∷◌, ◌++◌}

pub record NodeConfig : Type 0 where
  pub id : String
  pub addr : String

pub record PeerConfig : Type 0 where
  pub id : String
  pub addr : String

pub record RaftConfig : Type 0 where
  pub addr : String
  pub data_dir : String
  pub bootstrap_cluster : Bool
  pub peers : List PeerConfig
  pub heartbeat_timeout : ℕ
  pub election_timeout : ℕ
  pub snapshot_threshold : ℕ

pub record StorageConfig : Type 0 where
  pub data_dir : String
  pub memtable_size_mb : ℕ
  pub compaction_secs : ℕ

pub record TlsConfig : Type 0 where
  pub enabled : Bool
  pub cert_file : String
  pub key_file : String
  pub ca_file : String

pub record GrpcConfig : Type 0 where
  pub addr : String
  pub tls : TlsConfig

-- `HTTPConfig` and `MetricsConfig`
pub record ListenConfig : Type 0 where
  pub addr : String

pub record Config : Type 0 where
  pub node : NodeConfig
  pub raft : RaftConfig
  pub storage : StorageConfig
  pub grpc : GrpcConfig
  pub http : ListenConfig
  pub metrics : ListenConfig

-- What the type assertions tell apart: a value of a map, an element of a list, and what `Get` returns.
pub data Field : Type 0 where
  text : String → Field
  other_field : Field

pub data Item : Type 0 where
  table : (String → Option Field) → Item
  other_item : Item

pub data Raw : Type 0 where
  items : List Item → Raw
  other_raw : Raw

pub data Default : Type 0 where
  string : String → Default
  number : ℕ → Default
  flag : Bool → Default

-- viper; an integer that it returns is the bit pattern of an int64.
pub record Viper : Type 1 where
  pub State : Type 0
  pub ReadError : Type 0
  pub new : State
  pub set_config_file : State → String → State
  pub set_env_prefix : State → String → State
  pub set_env_key_replacer : State → String → String → State
  pub automatic_env : State → State
  pub set_default : State → String → Default → State
  pub read_in_config : State → State × Option ReadError
  pub get_string : State → String → String
  pub get_bool : State → String → Bool
  pub get_duration : State → String → ℕ
  pub get_int64 : State → String → ℕ
  pub get_int : State → String → ℕ
  pub get : State → String → Raw

-- The value of a key that is to be a string; a failed assertion panics.
unfoldable pub asserted : Option Field → Option String
asserted none = none
asserted (some (text s)) = some s
asserted (some other_field) = none

unfoldable pub peer_of : Option String → Option String → Option PeerConfig
peer_of none addr = none
peer_of (some id) none = none
peer_of (some id) (some addr) = some (record { id = id; addr = addr })

unfoldable pub add_peer : List PeerConfig → Option PeerConfig → Option (List PeerConfig)
add_peer peers none = none
add_peer peers (some p) = some (peers ++ p ∷ [])

unfoldable pub next_peer : List PeerConfig → Item → Option (List PeerConfig)
next_peer peers (table pm) = add_peer peers (peer_of (asserted (pm "id")) (asserted (pm "addr")))
next_peer peers other_item = some peers

-- The loop over the peers; none is a panic.
unfoldable pub peers_loop : List Item → Option (List PeerConfig) → Option (List PeerConfig)
peers_loop [] peers = peers
peers_loop (p ∷ rest) none = none
peers_loop (p ∷ rest) (some peers) = peers_loop rest (next_peer peers p)

unfoldable pub load_peers : Raw → Option (List PeerConfig)
load_peers (items ps) = peers_loop ps (some [])
load_peers other_raw = some []

pub data Loaded (ReadError : Type 0) : Type 0 where
  loaded : Config → Loaded ReadError
  read_failed : ReadError → Loaded ReadError
  panicked : Loaded ReadError

module _ (viper : Viper) where
  open viper use {
    State, ReadError, set_config_file, set_env_prefix, set_env_key_replacer, automatic_env,
    set_default, read_in_config, get_string, get_bool, get_duration, get_int64, get_int, get,
  }

  unfoldable pub set_each : State → List (String × Default) → State
  set_each v [] = v
  set_each v ((k, d) ∷ rest) = set_each (set_default v k d) rest

  -- `setDefaults`
  unfoldable pub set_defaults : State → State
  set_defaults v = set_each v (
      ("node.addr", string "0.0.0.0:7000")
      ∷ ("raft.addr", string "0.0.0.0:7001")
      ∷ ("raft.data_dir", string "/data/raft")
      ∷ ("raft.bootstrap", flag false)
      ∷ ("raft.heartbeat_timeout", string "500ms")
      ∷ ("raft.election_timeout", string "1s")
      ∷ ("raft.snapshot_threshold", number 10000)
      ∷ ("storage.data_dir", string "/data/kv")
      ∷ ("storage.memtable_size_mb", number 64)
      ∷ ("storage.compaction_interval_secs", number 30)
      ∷ ("grpc.addr", string "0.0.0.0:7002")
      ∷ ("http.addr", string "0.0.0.0:7003")
      ∷ ("metrics.addr", string "0.0.0.0:7004")
      ∷ [])

  unfoldable pub config_of : State → List PeerConfig → Config
  config_of v peers = record {
    node = record { id = get_string v "node.id"; addr = get_string v "node.addr" };
    raft = record {
      addr = get_string v "raft.addr";
      data_dir = get_string v "raft.data_dir";
      bootstrap_cluster = get_bool v "raft.bootstrap";
      peers = peers;
      heartbeat_timeout = get_duration v "raft.heartbeat_timeout";
      election_timeout = get_duration v "raft.election_timeout";
      snapshot_threshold = get_int64 v "raft.snapshot_threshold";
    };
    storage = record {
      data_dir = get_string v "storage.data_dir";
      memtable_size_mb = get_int64 v "storage.memtable_size_mb";
      compaction_secs = get_int v "storage.compaction_interval_secs";
    };
    grpc = record {
      addr = get_string v "grpc.addr";
      tls = record {
        enabled = get_bool v "grpc.tls.enabled";
        cert_file = get_string v "grpc.tls.cert_file";
        key_file = get_string v "grpc.tls.key_file";
        ca_file = get_string v "grpc.tls.ca_file";
      };
    };
    http = record { addr = get_string v "http.addr" };
    metrics = record { addr = get_string v "metrics.addr" };
  }

  unfoldable pub with_peers : State → Option (List PeerConfig) → Loaded ReadError
  with_peers v none = panicked
  with_peers v (some peers) = loaded (config_of v peers)

  unfoldable pub load_read : State × Option ReadError → Loaded ReadError
  load_read (v, some e) = read_failed e
  load_read (v, none) = with_peers v (load_peers (get v "raft.peers"))

  -- The calls of `Load` before the file is read.
  unfoldable pub prepared : String → State
  prepared path = set_defaults (
      automatic_env
        (set_env_key_replacer (set_env_prefix (set_config_file viper.new path) "OCKV") "." "_"))

  -- `Load`
  unfoldable pub load : String → Loaded ReadError
  load path = load_read (read_in_config (prepared path))
