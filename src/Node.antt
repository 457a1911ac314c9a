-- ===== src/Node.antt =====
-- internal/consensus/node.go: the start of a Raft node and its calls of Raft. The file system, BoltDB, the
-- transport and Raft are parameters; a World is the state of them all.
pub mod Start
use Prim.Native.String.{String}
use on_cloud_kv.Prelude.{
  ℕ, ◌*◌, ◌^◌, Bool, true, false, Option, none, some, List, [], ◌∷◌, map, if◌then◌else◌,
}
use on_cloud_kv.Config.{Config, PeerConfig}

-- The configuration of Raft, the fields that the code sets.
pub record RaftSettings : Type 0 where
  pub local_id : String
  pub heartbeat_timeout : ℕ
  pub election_timeout : ℕ
  pub snapshot_threshold : ℕ

pub record Server : Type 0 where
  pub id : String
  pub address : String

pub data Try (E A : Type 0) : Type 0 where
  fine : A → Try E A
  fault : E → Try E A

-- How a bootstrap ends.
pub data Bootstrap (E : Type 0) : Type 0 where
  bootstrapped cant_bootstrap : Bootstrap E
  bootstrap_fault : E → Bootstrap E

pub record Library : Type 1 where
  pub World : Type 0
  pub Error : Type 0
  pub BoltStore : Type 0
  pub SnapshotStore : Type 0
  pub TcpAddr : Type 0
  pub Transport : Type 0
  pub Raft : Type 0
  -- the state machine, and the batch writer
  pub Machine : Type 0
  pub Batch : Type 0
  pub join_path : String → String → String
  pub mkdir_all : World → String → World × Option Error
  pub new_bolt_store : World → String → World × Try Error BoltStore
  pub new_file_snapshot_store : World → String → ℕ → World × Try Error SnapshotStore
  pub resolve_tcp_addr : World → String → World × Try Error TcpAddr
  pub new_tcp_transport : World → String → TcpAddr → ℕ → World × Try Error Transport
  pub local_addr : Transport → String
  pub new_raft :
      World
      → RaftSettings
      → Machine
      → BoltStore
      → SnapshotStore
      → Transport
      → World × Try Error Raft
  pub bootstrap_cluster : World → Raft → List Server → World × Bootstrap Error
  pub is_leader_state : World → Raft → Bool
  pub leader_with_id : World → Raft → String × String
  pub add_voter : World → Raft → String → String → World × Option Error
  pub add_nonvoter : World → Raft → String → String → World × Option Error
  pub shutdown_raft : World → Raft → World × Option Error
  pub new_batch_writer : World → Raft → World × Batch
  pub stop_batch : World → Batch → World

-- Which call a failed start names.
pub data Stage : Type 0 where
  raft_datadir raft_boltdb raft_snapshots raft_addr raft_transport raft_new raft_bootstrap : Stage

-- The servers of a new cluster: this node, then its peers.
unfoldable pub servers_of : String → String → List PeerConfig → List Server
servers_of id address peers =
    record { id = id; address = address }
    ∷ map (λ (peer : PeerConfig). record { id = peer.id; address = peer.addr }) peers

unfoldable pub settings_of : Config → RaftSettings
settings_of cfg = record {
  local_id = cfg.node.id;
  heartbeat_timeout = cfg.raft.heartbeat_timeout;
  election_timeout = cfg.raft.election_timeout;
  snapshot_threshold = cfg.raft.snapshot_threshold;
}

module _ (lib : Library) where
  open lib use {
    World, Error, Raft, Transport, join_path, mkdir_all, new_bolt_store, new_file_snapshot_store,
    resolve_tcp_addr, new_tcp_transport, local_addr, new_raft, bootstrap_cluster, is_leader_state,
    leader_with_id, add_voter, add_nonvoter, shutdown_raft, new_batch_writer, stop_batch, Machine,
    Batch,
  }

  pub record Node : Type 0 where
    pub id : String
    pub raft : Raft
    pub machine : Machine
    pub batch : Batch
    pub config : Config

  -- The steps of a start: each changes the world, and the first that fails ends it.
  abbrev pub Starting : Type 0 → Type 0
  Starting A = World → World × Try (Stage × Error) A

  unfoldable pub and_then :
      {A B : Type 0}
      → World × Try (Stage × Error) A
      → (A → Starting B)
      → World × Try (Stage × Error) B
  and_then (w, fine a) k = k a w
  and_then (w, fault e) k = (w, fault e)

  infixl 20 ◌>>=◌
  unfoldable pub ◌>>=◌ : {A B : Type 0} → Starting A → (A → Starting B) → Starting B
  (m >>= k) w = and_then (m w) k

  -- `fmt.Errorf("<stage>: %w", err)`
  unfoldable pub named : {A : Type 0} → Stage → World × Try Error A → World × Try (Stage × Error) A
  named stage (w, fine a) = (w, fine a)
  named stage (w, fault e) = (w, fault (stage, e))

  unfoldable pub named_option : Stage → World × Option Error → World × Try (Stage × Error) Unit
  named_option stage (w, none) = (w, fine tt)
  named_option stage (w, some e) = (w, fault (stage, e))

  unfoldable pub named_bootstrap : World × Bootstrap Error → World × Try (Stage × Error) Unit
  named_bootstrap (w, bootstrapped) = (w, fine tt)
  named_bootstrap (w, cant_bootstrap) = (w, fine tt)
  named_bootstrap (w, bootstrap_fault e) = (w, fault (raft_bootstrap, e))

  unfoldable pub bootstrap : Config → Transport → Raft → Starting Unit
  bootstrap cfg transport r w =
      if cfg.raft.bootstrap_cluster
      then named_bootstrap
          (bootstrap_cluster w r (servers_of cfg.node.id (local_addr transport) cfg.raft.peers))
      else (w, fine tt)

  unfoldable pub with_batch :
      Config → Machine → Raft → World × Batch → World × Try (Stage × Error) Node
  with_batch cfg machine r (w, batch) = (
    w,
    fine (record { id = cfg.node.id; raft = r; machine = machine; batch = batch; config = cfg }),
  )

  -- `NewNode`
  unfoldable pub new_node : Config → Machine → Starting Node
  new_node cfg machine = do
    _ ← (λ w. named_option raft_datadir (mkdir_all w cfg.raft.data_dir))
    bolt ← (λ w. named raft_boltdb (new_bolt_store w (join_path cfg.raft.data_dir "raft.db")))
    snaps ← (λ w.
        named raft_snapshots
          (new_file_snapshot_store w (join_path cfg.raft.data_dir "snapshots") 3))
    addr ← (λ w. named raft_addr (resolve_tcp_addr w cfg.raft.addr))
    transport ← (λ w. named raft_transport (new_tcp_transport w cfg.raft.addr addr 3))
    r ← (λ w. named raft_new (new_raft w (settings_of cfg) machine bolt snaps transport))
    _ ← bootstrap cfg transport r
    (λ w. with_batch cfg machine r (new_batch_writer w r))

  -- `IsLeader`
  unfoldable pub is_leader : World → Node → Bool
  is_leader w n = is_leader_state w n.raft

  -- `LeaderAddr`
  unfoldable pub leader_addr : World → Node → String
  leader_addr w n = (leader_with_id w n.raft).0

  -- `AddVoter` and `AddLearner`
  unfoldable pub add_voter_node : World → Node → String → String → World × Option Error
  add_voter_node w n id addr = add_voter w n.raft id addr

  unfoldable pub add_learner : World → Node → String → String → World × Option Error
  add_learner w n id addr = add_nonvoter w n.raft id addr

  -- `Shutdown`
  unfoldable pub shutdown : World → Node → World × Option Error
  shutdown w n = shutdown_raft (stop_batch w n.batch) n.raft
