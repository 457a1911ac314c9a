-- ===== src/Fsm.antt =====
-- internal/consensus/fsm.go and snapshot.go: the state machine that Raft drives, over the storage engine
-- and the watch hub. Raft, its snapshot sink and the JSON codec are parameters.
pub mod Apply
pub mod Restore
use on_cloud_kv.Prelude.{
  ℕ, ◌==◌, Bool, true, false, Option, none, some, List, [], ◌∷◌, if◌then◌else◌,
}
use on_cloud_kv.Bytes.{Bytes}
use on_cloud_kv.Keys.{Key}
use on_cloud_kv.Entry.{Entry}
use on_cloud_kv.Bloom.{Sizing}
use on_cloud_kv.Sstable.Reader.{Outcome, ok, err, panic, out_of_fuel}
use on_cloud_kv.Engine
use on_cloud_kv.Engine.{Journal, Engine, WalRecord}
use on_cloud_kv.Watch.{Hub, Event, EventType, event_put, event_delete, notify}

-- The type is the byte of the JSON: 0 puts, 1 deletes.
pub record Command : Type 0 where
  pub type : ℕ
  pub key : Key
  pub value : Bytes
  pub ttl_seconds : ℕ

pub record Fsm (Log : Type 0) : Type 0 where
  pub store : Engine Log
  pub watcher : Hub

-- A raft.Log: whether its type is LogCommand, its index (a uint64) and its data.
pub record RaftLog : Type 0 where
  pub is_command : Bool
  pub index : ℕ
  pub payload : Bytes

-- What `Apply` hands back to the proposer: nothing, an error, or an ApplyResult.
pub data Response : Type 0 where
  no_response failed : Response
  apply_result : ℕ → Response

module _ (j : Journal) (encode : WalRecord → Bytes) where
  open j use {Log, IoError}

  unfoldable pub after_write : Fsm Log → Event → Engine Log × Option IoError → Fsm Log × Response
  after_write f e (store, some io) = (record f { store = store }, failed)
  after_write f e (store, none) =
      (record { store = store; watcher = notify f.watcher e }, apply_result e.version)

  unfoldable pub apply_command : Fsm Log → List Bool → ℕ → Option Command → Fsm Log × Response
  apply_command f draw version none = (f, failed)
  apply_command f draw version (some cmd) =
      if cmd.type == 0
      then after_write f
          (record { type = event_put; key = cmd.key; value = cmd.value; version = version })
          (Engine.put j encode f.store draw cmd.key cmd.value version)
      else if cmd.type == 1
      then after_write f
          (record { type = event_delete; key = cmd.key; value = []; version = version })
          (Engine.delete j encode f.store draw cmd.key version)
      else (f, failed)

  -- `Apply`, with the draws of the memtable
  unfoldable pub apply :
      (Bytes → Option Command) → Fsm Log → List Bool → RaftLog → Fsm Log × Response
  apply decode f draw l =
      if l.is_command then apply_command f draw l.index (decode l.payload) else (f, no_response)

-- `Snapshot`
unfoldable pub snapshot : {Log : Type 0} → Sizing → Fsm Log → Outcome (List Entry)
snapshot z f = Engine.snapshot z f.store

unfoldable pub restore_entries :
    {Log : Type 0} → (ℕ → List Bool) → Fsm Log → Option (List Entry) → Fsm Log × Bool
restore_entries draws f none = (f, false)
restore_entries draws f (some es) = (record f { store = Engine.restore draws f.store es }, true)

-- `Restore`, and whether it had no error
unfoldable pub restore :
    {Log : Type 0}
    → (Bytes → Option (List Entry))
    → (ℕ → List Bool)
    → Fsm Log
    → Bytes
    → Fsm Log × Bool
restore decode draws f snapshot_data = restore_entries draws f (decode snapshot_data)

-- What `Persist` does with the sink.
pub record Sink : Type 1 where
  pub State : Type 0
  pub SinkError : Type 0
  pub write : State → Bytes → State × Option SinkError
  pub cancel : State → State
  pub close_sink : State → State × Option SinkError

module _ (sink : Sink) where
  open sink use {State, SinkError, write, cancel, close_sink}

  unfoldable pub persist_written : State × Option SinkError → State × Option SinkError
  persist_written (s, some io) = (cancel s, some io)
  persist_written (s, none) = close_sink s

  -- `Persist`, on what the encoder makes of the entries, or the error that it has.
  unfoldable pub persist : SinkError → State → Option Bytes → State × Option SinkError
  persist marshal_error s none = (cancel s, some marshal_error)
  persist marshal_error s (some encoded) = persist_written (write s encoded)
