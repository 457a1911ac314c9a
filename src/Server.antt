-- ===== src/Server.antt =====
-- cmd/server/main.go: the start and the end of a server, as the list of what it does. What each part answers,
-- and how the wait for a signal ends, are arguments; logging is left out.
pub mod Order
use Prim.Native.String.{String}
use on_cloud_kv.Prelude.{ℕ, Bool, true, false, List, [], ◌∷◌, ◌++◌, map, if◌then◌else◌}
use on_cloud_kv.Config.{Config, PeerConfig, Loaded, loaded, read_failed, panicked}

-- How the wait ends: by a signal, or by the failure of the gRPC listener, which calls `log.Fatal`.
pub data WaitEnd : Type 0 where
  signalled listener_failed : WaitEnd

pub data Action : Type 0 where
  load_config : String → Action
  open_store : String → ℕ → Action
  start_node : Action
  -- node id, gossip address, Raft address, gRPC address, seeds
  join_gossip : String → String → String → String → List String → Action
  serve_metrics serve_http serve_grpc : String → Action
  wait_for_signal : Action
  grpc_failed : Action
  shutdown_node close_store : Action
  -- `log.Fatal`, which exits at once, and a panic, which runs what is deferred
  fatal crash : Action

unfoldable pub is_empty : String → Bool
is_empty String.[] = true
is_empty (String.◌∷◌ c s) = false

-- The path of the configuration; the arguments are those after the name of the program.
unfoldable pub config_path : List String → String
config_path [] = "config.yaml"
config_path (path ∷ args) = path

unfoldable pub gossip_actions : Config → List Action
gossip_actions cfg =
    if is_empty cfg.node.addr
    then []
    else join_gossip cfg.node.id cfg.node.addr cfg.raft.addr cfg.grpc.addr
        (map (λ (p : PeerConfig). p.addr) cfg.raft.peers)
      ∷ []

-- `defer`: the call runs before those that are deferred already.
unfoldable pub defer_call : Action → List Action → List Action
defer_call call deferred = call ∷ deferred

-- `<-quit`: after a signal `main` returns, which runs what is deferred; a failing gRPC listener calls
-- `log.Fatal`, which runs nothing of it.
unfoldable pub wait_actions : WaitEnd → List Action → List Action
wait_actions signalled deferred = wait_for_signal ∷ deferred
wait_actions listener_failed deferred = grpc_failed ∷ fatal ∷ []

-- After the node has started: the services, and the wait.
unfoldable pub serve_actions : Config → WaitEnd → List Action → List Action
serve_actions cfg wait deferred =
    gossip_actions cfg
    ++ serve_metrics cfg.metrics.addr
      ∷ serve_http cfg.http.addr
      ∷ serve_grpc cfg.grpc.addr
      ∷ wait_actions wait deferred

unfoldable pub node_actions : Config → Bool → WaitEnd → List Action → List Action
node_actions cfg starts wait deferred =
    start_node
    ∷ (if starts then serve_actions cfg wait (defer_call shutdown_node deferred) else fatal ∷ [])

unfoldable pub store_actions : Config → Bool → Bool → WaitEnd → List Action → List Action
store_actions cfg opens starts wait deferred =
    open_store cfg.storage.data_dir cfg.storage.memtable_size_mb
    ∷ (if opens then node_actions cfg starts wait (defer_call close_store deferred) else fatal ∷ [])

-- A panic runs what is deferred; nothing is before the store is open.
unfoldable pub loaded_actions :
    {E : Type 0}
    → Loaded E
    → (Config → Bool)
    → (Config → Bool)
    → WaitEnd
    → List Action
    → List Action
loaded_actions (loaded cfg) opens starts wait deferred =
    store_actions cfg (opens cfg) (starts cfg) wait deferred
loaded_actions (read_failed e) opens starts wait deferred = fatal ∷ []
loaded_actions panicked opens starts wait deferred = crash ∷ deferred

-- `main`. A failure of the gRPC listener comes in the wait, after the services were started.
unfoldable pub main :
    {E : Type 0}
    → (String → Loaded E)
    → (Config → Bool)
    → (Config → Bool)
    → WaitEnd
    → List String
    → List Action
main load opens starts wait args =
    let path = config_path args in
    load_config path ∷ loaded_actions (load path) opens starts wait []
