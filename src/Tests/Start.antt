-- ===== src/Tests/Start.antt =====
-- The theorems on the configuration, the start of a server and its ring at concrete inputs.
use Prim.Native.String.{String}
use on_cloud_kv.Prelude.{ℕ, suc, refl, true, false, Option, none, some, List, [], ◌∷◌}
use on_cloud_kv.Bytes.{Bytes}
use on_cloud_kv.Config.{Config, PeerConfig, Field, text, table, other_item, items, Viper}
use on_cloud_kv.Node.{Library, fine, bootstrapped, new_node}
use on_cloud_kv.Node.Start.{Same, with_peers, new_node-with_peers}
use on_cloud_kv.Membership.{NodeMeta, Gossip}

-- A viper whose file names one peer, with an element that is no map.
abbrev peer_fields : String → Option Field
peer_fields k = some (text "node2")

abbrev file_viper : Viper
file_viper = record {
  State = ℕ;
  ReadError = ℕ;
  new = 0;
  set_config_file = λ v s. v;
  set_env_prefix = λ v s. v;
  set_env_key_replacer = λ v s t. v;
  automatic_env = λ v. v;
  set_default = λ v k d. suc v;
  read_in_config = λ v. (v, none);
  get_string = λ v k. k;
  get_bool = λ v k. false;
  get_duration = λ v k. 5;
  get_int64 = λ v k. 6;
  get_int = λ v k. 7;
  get = λ v k. items (table peer_fields ∷ other_item ∷ []);
}

-- The configuration of one node.
abbrev one_node : Config
one_node = record {
  node = record { id = "node1"; addr = "0.0.0.0:7000" };
  raft = record {
    addr = "node1:7001";
    data_dir = "/data/raft";
    bootstrap_cluster = false;
    peers = [];
    heartbeat_timeout = 500;
    election_timeout = 1000;
    snapshot_threshold = 10000;
  };
  storage = record { data_dir = "/data/kv"; memtable_size_mb = 64; compaction_secs = 30 };
  grpc = record {
    addr = "g";
    tls = record { enabled = false; cert_file = ""; key_file = ""; ca_file = "" };
  };
  http = record { addr = "h" };
  metrics = record { addr = "m" };
}

-- A library in which the calls are counted and none fails.
abbrev counting : Library
counting = record {
  World = ℕ;
  Error = ℕ;
  BoltStore = ℕ;
  SnapshotStore = ℕ;
  TcpAddr = ℕ;
  Transport = ℕ;
  Raft = ℕ;
  Machine = ℕ;
  Batch = ℕ;
  join_path = λ d f. f;
  mkdir_all = λ w d. (suc w, none);
  new_bolt_store = λ w p. (suc w, fine 1);
  new_file_snapshot_store = λ w d n. (suc w, fine 2);
  resolve_tcp_addr = λ w a. (suc w, fine 3);
  new_tcp_transport = λ w a t n. (suc w, fine 4);
  local_addr = λ t. "node1:7001";
  new_raft = λ w s m b sn t. (suc w, fine 5);
  bootstrap_cluster = λ w r servers. (suc w, bootstrapped);
  is_leader_state = λ w r. true;
  leader_with_id = λ w r. ("node1:7001", "node1");
  add_voter = λ w r i a. (suc w, none);
  add_nonvoter = λ w r i a. (suc w, none);
  shutdown_raft = λ w r. (suc w, none);
  new_batch_writer = λ w r. (suc w, 6);
  stop_batch = λ w b. suc w;
}

abbrev two_peers : List PeerConfig
two_peers =
    record { id = "node2"; addr = "node2:7001" } ∷ record { id = "node3"; addr = "node3:7001" } ∷ []

new_node-with_peers_example :
    Same counting
      (new_node counting one_node 7 0)
      (new_node counting (with_peers one_node two_peers) 7 0)
new_node-with_peers_example = new_node-with_peers counting one_node two_peers 7 0 refl

-- A ring whose members are this node and one with no metadata.
abbrev meta_of : Bytes → Option NodeMeta
meta_of [] = none
meta_of (b ∷ bs) = some (record { node_id = "node1"; raft_addr = "r"; grpc_addr = "g" })

abbrev gossip : Gossip
gossip = record {
  Ring = List Bytes;
  Error = ℕ;
  split_host_port = λ s. fine ("host", "7000");
  atoi = λ s. 7000;
  marshal = λ m. 1 ∷ [];
  unmarshal = meta_of;
  create = λ c. fine (c.delegate ∷ []);
  join_ring = λ ring seeds. (ring, none);
  ring_members = λ ring. ring;
  leave_ring = λ ring. (ring, none);
  shutdown_ring = λ ring. (ring, none);
}

abbrev meta : NodeMeta
meta = record { node_id = "node1"; raft_addr = "r"; grpc_addr = "g" }
