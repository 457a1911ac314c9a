-- ===== src/Server/Order.antt =====
-- cmd/server/main.go: how a server ends.
use Prim.Native.String.{String}
use on_cloud_kv.Prelude.{ℕ, suc, ◌≡◌, ◌&&◌, Bool, true, false, List, [], ◌∷◌, ◌++◌}
use on_cloud_kv.Config.{Config, Loaded, loaded, read_failed, panicked}
use on_cloud_kv.Server.{
  Action, load_config, open_store, start_node, join_gossip, serve_metrics, serve_http, serve_grpc,
  wait_for_signal, grpc_failed, shutdown_node, close_store, fatal, crash, WaitEnd, signalled,
  listener_failed,
}

-- How many times the store is closed.
unfoldable pub closes : List Action → ℕ
closes [] = 0
closes (close_store ∷ acts) = suc (closes acts)
closes (load_config path ∷ acts) = closes acts
closes (open_store dir size ∷ acts) = closes acts
closes (start_node ∷ acts) = closes acts
closes (join_gossip id addr raft grpc seeds ∷ acts) = closes acts
closes (serve_metrics addr ∷ acts) = closes acts
closes (serve_http addr ∷ acts) = closes acts
closes (serve_grpc addr ∷ acts) = closes acts
closes (wait_for_signal ∷ acts) = closes acts
closes (grpc_failed ∷ acts) = closes acts
closes (shutdown_node ∷ acts) = closes acts
closes (fatal ∷ acts) = closes acts
closes (crash ∷ acts) = closes acts

pub data IsExit : Action → Type 0 where
  by_fatal : IsExit fatal
  by_panic : IsExit crash

-- How a run ends, by whether the node starts and how its wait ends: after a signal the node is shut down, then
-- the store is closed, once; any other run ends by an exit, and closes nothing.
pub data Ended : Bool → WaitEnd → List Action → Type 0 where
  on_signal :
      {acts : List Action} (before : List Action)
      → closes before ≡ 0
      → acts ≡ before ++ wait_for_signal ∷ shutdown_node ∷ close_store ∷ []
      → Ended true signalled acts
  on_listener :
      {acts : List Action} (before : List Action)
      → closes before ≡ 0
      → acts ≡ before ++ grpc_failed ∷ fatal ∷ []
      → Ended true listener_failed acts
  on_exit :
      {wait : WaitEnd} {acts : List Action} (before : List Action) {last : Action}
      → IsExit last
      → closes before ≡ 0
      → acts ≡ before ++ last ∷ []
      → Ended false wait acts

-- Whether the configuration is loaded, and the store and the node with it come up.
unfoldable pub node_starts : {E : Type 0} → Loaded E → (Config → Bool) → (Config → Bool) → Bool
node_starts (loaded cfg) opens starts = opens cfg && starts cfg
node_starts (read_failed e) opens starts = false
node_starts panicked opens starts = false
