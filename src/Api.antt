-- ===== src/Api.antt =====
-- internal/api/grpc/server.go: the handlers of the key-value service. The node is a parameter: whether it
-- leads, and what `Batch.Submit` answers. Metrics and logging are left out.
pub mod Writes
use Prim.Native.String.{String}
use on_cloud_kv.Prelude.{
  ℕ, ◌^◌, Bool, true, false, Option, none, some, List, [], ◌∷◌, map, if◌then◌else◌,
}
use on_cloud_kv.Bytes.{Bytes}
use on_cloud_kv.Keys.{Key, key_eqb}
use on_cloud_kv.Entry.{Entry}
use on_cloud_kv.Bloom.{Sizing}
use on_cloud_kv.Sstable.Reader.{Outcome, ok, err, panic, out_of_fuel}
use on_cloud_kv.Engine
use on_cloud_kv.Engine.{Engine}
use on_cloud_kv.Watch.{Event, EventType, event_put, event_delete}
use on_cloud_kv.Fsm.{Command}
use on_cloud_kv.Batch.{BatchResult}
use on_cloud_kv.Router
use on_cloud_kv.Router.{Mode, eventual, Reply, replied, refused, pending}

pub data Code : Type 0 where
  invalid_argument unavailable internal : Code

-- What a write ends with: a status error, or success with the Raft index.
pub data WriteReply : Type 0 where
  denied : Code → WriteReply
  success : ℕ → WriteReply

module _ (Node : Type 0) (is_leader : Node → Bool)
    (submit : Node → Command → Node × BatchResult) where
  unfoldable pub answer_write : Node × BatchResult → Node × WriteReply
  answer_write (node, res) =
      (node, (if res.has_error then denied internal else success res.version))

  -- The guards that `Put` and `Delete` share, then the submission.
  unfoldable pub guarded_write : Node → Command → Node × WriteReply
  guarded_write node cmd =
      if key_eqb cmd.key []
      then (node, denied invalid_argument)
      else if is_leader node
      then answer_write (submit node cmd)
      else (node, denied unavailable)

  -- `Put`
  unfoldable pub put : Node → Key → Bytes → ℕ → Node × WriteReply
  put node key value ttl =
      guarded_write node (record { type = 0; key = key; value = value; ttl_seconds = ttl })

  -- `Delete`
  unfoldable pub delete : Node → Key → Node × WriteReply
  delete node key = guarded_write node (record { type = 1; key = key; value = []; ttl_seconds = 0 })

-- `consistencyMode`: the mode of the request, or of the metadata, an empty one being none.
unfoldable pub consistency_mode : Option Mode → Option Mode → Mode
consistency_mode (some mode) metadata = mode
consistency_mode none (some mode) = mode
consistency_mode none none = eventual

pub record GetResponse : Type 0 where
  pub found : Bool
  pub value : Bytes
  pub version : ℕ

-- What a read ends with; a panic ends the handler, and a read that waits has no end yet.
pub data ReadReply : Type 0 where
  answered : GetResponse → ReadReply
  failed crashed waiting : ReadReply

unfoldable pub answer_read : Reply → ReadReply
answer_read (replied (ok (e, found))) =
    answered (record { found = found; value = e.value; version = e.version })
answer_read (replied err) = failed
answer_read (replied panic) = crashed
answer_read (replied out_of_fuel) = waiting
answer_read refused = failed
answer_read pending = waiting

-- `Get`
unfoldable pub get :
    {Log : Type 0}
    → Sizing
    → Bool
    → List Router.Look
    → Engine Log
    → Key
    → Option Mode
    → Option Mode
    → ℕ
    → ℕ
    → ReadReply
get z verified looks store key requested metadata session_index min_version = answer_read (
    Router.get z verified looks store key (consistency_mode requested metadata) session_index
      min_version)

pub record KeyValue : Type 0 where
  pub key : Key
  pub value : Bytes
  pub version : ℕ

unfoldable pub scan_items : Outcome (List Entry) → Option (List KeyValue)
scan_items (ok es) =
    some (map (λ (e : Entry). record { key = e.key; value = e.value; version = e.version }) es)
scan_items err = none
scan_items panic = none
scan_items out_of_fuel = none

-- `Scan`, where no read panics
unfoldable pub scan : {Log : Type 0} → Sizing → Engine Log → Key → ℕ → Option (List KeyValue)
scan z store prefix limit = scan_items (Engine.scan z store prefix limit)

-- What the loop of `Watch` meets: the context is done, the channel is closed, or an event, of which the
-- flag tells whether sending it fails.
pub data WatchSignal : Type 0 where
  context_done channel_closed : WatchSignal
  event : Event → Bool → WatchSignal

-- `Watch`: the events that it sends, and whether it returns an error.
unfoldable pub watch_loop : List WatchSignal → List Event × Bool
watch_loop [] = ([], false)
watch_loop (context_done ∷ signals) = ([], false)
watch_loop (channel_closed ∷ signals) = ([], false)
watch_loop (event e send_fails ∷ signals) =
    let rest = watch_loop signals in if send_fails then ([], true) else (e ∷ rest.0, rest.1)

pub record StatusResponse : Type 0 where
  pub node_id : String
  pub leader : String
  pub state : String
  pub commit_index : ℕ
  pub applied_index : ℕ
  pub peers : List String

-- `Status`: the identity of the node, the leader's address, the state of Raft as a text, its statistics, where
-- a missing one is empty, and the addresses of its configuration; `parse_int` is strconv's, and gives 0 on an
-- error.
unfoldable pub status :
    (String → ℕ) → String → String → String → (String → String) → List String → StatusResponse
status parse_int id leader state stats addresses = record {
  node_id = id;
  leader = leader;
  state = state;
  commit_index = parse_int (stats "commit_index");
  applied_index = parse_int (stats "applied_index");
  peers = addresses;
}
