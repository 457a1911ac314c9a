-- ===== src/Cli.antt =====
-- cmd/cli/main.go: the commands of the client. The generated client of the service is a parameter, and cobra
-- has parsed the flags; what a command prints is a list of lines.
pub mod RoundTrip
use Prim.Native.String.{String}
use on_cloud_kv.Prelude.{
  ℕ, Bool, true, false, Option, none, some, List, [], ◌∷◌, ◌++◌, map, length, if◌then◌else◌,
}
use on_cloud_kv.Bytes.{Bytes}
use on_cloud_kv.Keys.{Key}
use on_cloud_kv.Node.{Try, fine, fault}
use on_cloud_kv.Watch.{Event, EventType, event_put, event_delete}
use on_cloud_kv.Router.{Mode}
use on_cloud_kv.Api.{GetResponse, KeyValue, StatusResponse}

-- The flags: `--consistency`, an empty one being none, `--ttl`, `--session-index`, `--min-version`, `--limit`
-- and `--nodes`.
pub record Flags : Type 0 where
  pub consistency : Option Mode
  pub ttl : ℕ
  pub session_index : ℕ
  pub min_version : ℕ
  pub limit : ℕ
  pub partition_nodes : String

-- The generated client; a stream is the events that it receives, and the error that ends it.
pub record Client : Type 1 where
  pub World : Type 0
  pub RpcError : Type 0
  pub dial : World → Option RpcError
  pub put : World → Key → Bytes → ℕ → World × Try RpcError ℕ
  pub get : World → Key → Option Mode → ℕ → ℕ → World × Try RpcError GetResponse
  pub delete : World → Key → World × Try RpcError ℕ
  pub scan : World → Key → ℕ → World × Try RpcError (List KeyValue)
  pub watch : World → Key → World × Try RpcError (List Event × RpcError)
  pub status : World → World × Try RpcError StatusResponse

-- What a command prints on a line, with the values that the format is given.
pub data Line : Type 0 where
  ok_version : ℕ → Line
  not_found : Line
  value_version : Bytes → ℕ → Line
  item_line : Key → Bytes → ℕ → Line
  results : ℕ → Line
  watching : Key → Line
  -- the word "DEL" or "PUT", the key, the value, the version
  event_line : String → Key → Bytes → ℕ → Line
  -- a name and its text, its number or its list
  field_text : String → String → Line
  field_number : String → ℕ → Line
  field_list : String → List String → Line
  chaos_target : String → String → String → Line
  plain : String → Line
  -- a rule of iptables: what stands before the nodes, the nodes, and what stands after them
  rule : String → String → String → Line

-- How a command ends: well, with an error of its arguments, or with an error of the service.
pub data Exit (E : Type 0) : Type 0 where
  exit_ok wrong_args : Exit E
  rpc_error : E → Exit E

unfoldable pub scan_lines : List KeyValue → List Line
scan_lines kvs =
    map (λ (item : KeyValue). item_line item.key item.value item.version) kvs
    ++ results (length kvs) ∷ []

unfoldable pub op_name : EventType → String
op_name event_put = "PUT"
op_name event_delete = "DEL"

unfoldable pub event_lines : List Event → List Line
event_lines es =
    map (λ (evt : Event). event_line (op_name evt.type) evt.key evt.value evt.version) es

unfoldable pub get_lines : GetResponse → List Line
get_lines resp = if resp.found then value_version resp.value resp.version ∷ [] else not_found ∷ []

unfoldable pub status_lines : StatusResponse → List Line
status_lines resp =
    field_text "Node ID" resp.node_id
    ∷ field_text "State" resp.state
    ∷ field_text "Leader" resp.leader
    ∷ field_number "Commit index" resp.commit_index
    ∷ field_number "Applied index" resp.applied_index
    ∷ field_list "Peers" resp.peers
    ∷ []

unfoldable pub chaos_status_lines : StatusResponse → List Line
chaos_status_lines resp = chaos_target resp.node_id resp.state resp.leader ∷ []

unfoldable pub partition_lines : String → List Line
partition_lines nodes =
    plain "To simulate partition, run on the target node:"
    ∷ rule "  iptables -I INPUT -s " nodes " -j DROP"
    ∷ rule "  iptables -I OUTPUT -d " nodes " -j DROP"
    ∷ plain "To heal:"
    ∷ rule "  iptables -D INPUT -s " nodes " -j DROP"
    ∷ rule "  iptables -D OUTPUT -d " nodes " -j DROP"
    ∷ []

-- The prefix of `scan` and `watch`
unfoldable pub prefix_of : List Key → Key
prefix_of [] = []
prefix_of (prefix ∷ args) = prefix

module _ (client : Client) where
  open client use {World, RpcError, dial, put, get, delete, scan, watch, status}

  -- What a command does: the world, its lines and its exit.
  abbrev pub Done : Type 0
  Done = World × List Line × Exit RpcError

  abbrev pub output : Done → List Line × Exit RpcError
  output done = (done.1, done.2)

  unfoldable pub printed : {A : Type 0} → (A → List Line) → World × Try RpcError A → Done
  printed lines (w, fine a) = (w, lines a, exit_ok)
  printed lines (w, fault e) = (w, [], rpc_error e)

  -- The calls that every command begins with.
  unfoldable pub dialled : World → Done → Option RpcError → Done
  dialled w run none = run
  dialled w run (some e) = (w, [], rpc_error e)

  -- `putCmd`, with its exactly two arguments
  unfoldable pub put_cmd : World → Flags → List Bytes → Done
  put_cmd w flags (key ∷ value ∷ []) =
      dialled w (printed (λ index. ok_version index ∷ []) (put w key value flags.ttl)) (dial w)
  put_cmd w flags _ = (w, [], wrong_args)

  -- `getCmd`, with its one argument
  unfoldable pub get_cmd : World → Flags → List Bytes → Done
  get_cmd w flags (key ∷ []) =
      dialled w
        (printed get_lines (get w key flags.consistency flags.session_index flags.min_version))
        (dial w)
  get_cmd w flags _ = (w, [], wrong_args)

  -- `deleteCmd`, with its one argument
  unfoldable pub delete_cmd : World → List Bytes → Done
  delete_cmd w (key ∷ []) =
      dialled w (printed (λ index. ok_version index ∷ []) (delete w key)) (dial w)
  delete_cmd w _ = (w, [], wrong_args)

  -- `scanCmd`, with at most one argument
  unfoldable pub scan_cmd : World → Flags → List Bytes → Done
  scan_cmd w flags (a ∷ b ∷ args) = (w, [], wrong_args)
  scan_cmd w flags args =
      dialled w (printed scan_lines (scan w (prefix_of args) flags.limit)) (dial w)

  -- The stream of `watchCmd`: it only ends with an error.
  unfoldable pub watched : Key → World × Try RpcError (List Event × RpcError) → Done
  watched prefix (w, fault e) = (w, watching prefix ∷ [], rpc_error e)
  watched prefix (w, fine (events, e)) = (w, watching prefix ∷ event_lines events, rpc_error e)

  -- `watchCmd`, with at most one argument
  unfoldable pub watch_cmd : World → List Bytes → Done
  watch_cmd w (a ∷ b ∷ args) = (w, [], wrong_args)
  watch_cmd w args =
      let prefix = prefix_of args in dialled w (watched prefix (watch w prefix)) (dial w)

  -- `statusCmd`
  unfoldable pub status_cmd : World → Done
  status_cmd w = dialled w (printed status_lines (status w)) (dial w)

  -- The two commands of `chaosCmd`
  unfoldable pub chaos_status_cmd : World → Done
  chaos_status_cmd w = dialled w (printed chaos_status_lines (status w)) (dial w)

  unfoldable pub chaos_partition_cmd : World → Flags → Done
  chaos_partition_cmd w flags = (w, partition_lines flags.partition_nodes, exit_ok)
