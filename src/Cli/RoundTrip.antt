-- ===== src/Cli/RoundTrip.antt =====
-- cmd/cli/main.go: the commands on a server of this code: the gRPC service over the batch writer, the state
-- machine and the engine, with a Raft group of one node that commits what is proposed and applies it at once.
use on_cloud_kv.Prelude.{
  ℕ, suc, ◌≤◌, ◌≡◌, ◌==◌, refl, true, false, Option, none, some, List, [], ◌∷◌, arith,
}
use on_cloud_kv.Bytes.{Bytes}
use on_cloud_kv.Keys.{Key, key_eqb}
use on_cloud_kv.Entry.{Entry}
use on_cloud_kv.Bloom.{Sizing}
use on_cloud_kv.Engine
use on_cloud_kv.Engine.{Journal, Engine, WalRecord, op_put, put_answered}
use on_cloud_kv.Engine.Reads.{Stores}
use on_cloud_kv.Watch.{Event, event_put}
use on_cloud_kv.Fsm.{Fsm, Command, RaftLog, apply_result, apply, apply_command, after_write}
use on_cloud_kv.Fsm.Apply.{apply-get}
use on_cloud_kv.Batch.{BatchResult, flush_one, result_of}
use on_cloud_kv.Router
use on_cloud_kv.Router.{
  Mode, strong, eventual, read_your_writes, monotonic, other_mode, Look, Reply, replied, Waited,
  reached, after_wait, wait_for_index, wait_loop,
}
use on_cloud_kv.Api
use on_cloud_kv.Api.{
  Code, WriteReply, denied, success, ReadReply, answered, GetResponse, KeyValue, StatusResponse,
  consistency_mode,
}
use on_cloud_kv.Api.Writes.{submit_at}
use on_cloud_kv.Node.{Try, fine, fault}
use on_cloud_kv.Cli.{
  Flags, Client, ok_version, value_version, exit_ok, get_lines, printed, output, dialled, put_cmd,
  get_cmd,
}

wait-applied : (l : Look) (index : ℕ) → index ≤ l.applied → wait_for_index index (l ∷ []) ≡ reached
unfolding wait_for_index wait_loop
wait-applied l index h = ground arith

-- A read after the leader was verified and the applied index was found high enough answers what the store
-- holds, in every mode.
get-applied :
    {Log : Type 0} (z : Sizing) (l : Look) (store : Engine Log) (key : Key) (mode : Mode)
    (session_index min_version : ℕ)
    → session_index ≤ l.applied
    → min_version ≤ l.applied
    → Router.get z true (l ∷ []) store key mode session_index min_version
      ≡ replied (Engine.get z store key)
unfolding Router.get after_wait
get-applied z l store key strong s m hs hm = refl
get-applied z l store key eventual s m hs hm = refl
get-applied z l store key other_mode s m hs hm = refl
get-applied z l store key read_your_writes s m hs hm = rw (wait-applied l s hs) refl
get-applied z l store key monotonic s m hs hm = rw (wait-applied l m hm) refl

-- How the generated client gives back what the service answers.
unfoldable pub of_write : {World : Type 0} → World × WriteReply → World × Try (Option Code) ℕ
of_write (w, success index) = (w, fine index)
of_write (w, denied code) = (w, fault (some code))

unfoldable pub of_read : ReadReply → Try (Option Code) GetResponse
of_read (answered r) = fine r
of_read _ = fault none

unfoldable pub of_scan : Option (List KeyValue) → Try (Option Code) (List KeyValue)
of_scan (some kvs) = fine kvs
of_scan none = fault none

-- A server: its state machine, and the index that is applied.
pub record Served (Log : Type 0) : Type 0 where
  pub machine : Fsm Log
  pub applied : ℕ

module _ (j : Journal) (encode : WalRecord → Bytes) (marshal : Command → Option Bytes)
    (decode : Bytes → Option Command) (z : Sizing) where
  open j use {Log, IoError, append}

  abbrev pub submit_next : Served Log → Command → Served Log × BatchResult
  submit_next w cmd =
      let (f, res) = submit_at j encode marshal decode (suc w.applied) w.machine cmd in
      (record { machine = f; applied = suc w.applied }, res)

  abbrev pub look_of : Served Log → Look
  look_of w = record { applied = w.applied; cancelled = false }

  -- The client of such a server, which leads; what `Watch` and `Status` answer is open.
  abbrev pub served_client :
      (Served Log → Key → Served Log × Try (Option Code) (List Event × Option Code))
      → (Served Log → Served Log × Try (Option Code) StatusResponse)
      → Client
  served_client watch_of status_of = record {
    World = Served Log;
    RpcError = Option Code;
    dial = λ w. none;
    put =
        λ w key value ttl. of_write (Api.put (Served Log) (λ w. true) submit_next w key value ttl);
    get = λ w key requested session_index min_version. (
      w,
      of_read (
          Api.get z true (look_of w ∷ []) w.machine.store key requested none session_index
            min_version),
    );
    delete = λ w key. of_write (Api.delete (Served Log) (λ w. true) submit_next w key);
    scan = λ w prefix limit. (w, of_scan (Api.scan z w.machine.store prefix limit));
    watch = watch_of;
    status = status_of;
  }

  put_answered_fine :
      (e : Engine Log) (k : Key) (v : Bytes) (version : ℕ) (r : Log × Option IoError)
      → r.1 ≡ none
      → (put_answered j encode e [] k v version r).1 ≡ none
  unfolding put_answered
  put_answered_fine e k v version (l, none) h = refl
  put_answered_fine e k v version (l, some io) h = absurd cc

  after_write_fine :
      (f : Fsm Log) (e : Event) (r : Engine Log × Option IoError)
      → r.1 ≡ none
      → (after_write j encode f e r).1 ≡ apply_result e.version
  unfolding after_write
  after_write_fine f e (store, none) h = refl
  after_write_fine f e (store, some io) h = absurd cc

  -- The command of a put, and its log entry.
  abbrev pub put_of : Key → Bytes → ℕ → Command
  put_of key value ttl = record { type = 0; key = key; value = value; ttl_seconds = ttl }

  abbrev pub entry_of : ℕ → Bytes → RaftLog
  entry_of index payload = record { is_command = true; index = index; payload = payload }

  apply_fine :
      (f : Fsm Log) (index : ℕ) (payload : Bytes) (cmd : Command)
      → (cmd.type == 0) ≡ true
      → decode payload ≡ some cmd
      → (append f.store.wal
          (encode (record { op = op_put; key = cmd.key; value = cmd.value; version = index }))).1
        ≡ none
      → (apply j encode decode f [] (entry_of index payload)).1 ≡ apply_result index
  unfolding apply apply_command Engine.put
  apply_fine f index payload cmd is_put d logged =
      rw (d, is_put)
        (after_write_fine f
          (record { type = event_put; key = cmd.key; value = cmd.value; version = index })
          (Engine.put j encode f.store [] cmd.key cmd.value index)
          (put_answered_fine f.store cmd.key cmd.value index
            (append f.store.wal
              (encode (record { op = op_put; key = cmd.key; value = cmd.value; version = index })))
            logged))

  put-success_next :
      (w : Served Log) (key : Key) (value : Bytes) (ttl : ℕ) (payload : Bytes)
      → key_eqb key [] ≡ false
      → marshal (put_of key value ttl) ≡ some payload
      → decode payload ≡ some (put_of key value ttl)
      → (append w.machine.store.wal
          (encode (record { op = op_put; key = key; value = value; version = suc w.applied }))).1
        ≡ none
      → Api.put (Served Log) (λ w. true) submit_next w key value ttl ≡ (
        record {
          machine = (apply j encode decode w.machine [] (entry_of (suc w.applied) payload)).0;
          applied = suc w.applied;
        },
        success (suc w.applied),
      )
  unfolding Api.put Api.guarded_write Api.answer_write flush_one result_of
  put-success_next w key value ttl payload some_key encoded decoded logged =
      rw
        (
          some_key,
          encoded,
          apply_fine w.machine (suc w.applied) payload (put_of key value ttl) refl decoded logged,
        )
        refl

  -- Against a server that leads a Raft group of one node, where `VerifyLeader` succeeds and a command is
  -- committed and applied at once, and whose log takes the record without an error: a `put` of the client
  -- on a key that is not empty prints the index of its log entry; a `get` of the key that follows prints
  -- the value with that index as its version, in every consistency mode, with any session index and least
  -- version up to the printed one. The store has well-formed memtables and tables, the command can be
  -- encoded, and decoding gives it back.
  pub put_cmd-get_cmd :
      (watch_of : Served Log → Key → Served Log × Try (Option Code) (List Event × Option Code))
      (status_of : Served Log → Served Log × Try (Option Code) StatusResponse) (w : Served Log)
      (memory pending : List Entry) (tables : List (List Entry)) (flags later : Flags) (key : Key)
      (value payload : Bytes)
      → Stores w.machine.store memory pending tables
      → key_eqb key [] ≡ false
      → marshal (put_of key value flags.ttl) ≡ some payload
      → decode payload ≡ some (put_of key value flags.ttl)
      → (append w.machine.store.wal
          (encode (record { op = op_put; key = key; value = value; version = suc w.applied }))).1
        ≡ none
      → later.session_index ≤ suc w.applied
      → later.min_version ≤ suc w.applied
      → (output
            (served_client watch_of status_of)
            (put_cmd (served_client watch_of status_of) w flags (key ∷ value ∷ []))
          ≡ (ok_version (suc w.applied) ∷ [], exit_ok))
        × (output (served_client watch_of status_of) (
              get_cmd
                (served_client watch_of status_of)
                (put_cmd (served_client watch_of status_of) w flags (key ∷ value ∷ [])).0
                later
                (key ∷ []))
            ≡ (value_version value (suc w.applied) ∷ [], exit_ok))
  unfolding put_cmd get_cmd dialled printed get_lines of_write of_read Api.get Api.answer_read
  put_cmd-get_cmd watch_of status_of w memory pending tables flags later key value payload st
        some_key encoded decoded logged hs hm =
      let put = put-success_next w key value flags.ttl payload some_key encoded decoded logged in
      let found =
        apply-get j encode decode z w.machine memory pending tables [] (suc w.applied)
          (suc w.applied) payload (put_of key value flags.ttl) st decoded refl
          (apply_fine w.machine (suc w.applied) payload (put_of key value flags.ttl) refl decoded
            logged) in
      let w1 : Served Log = record {
        machine = (apply j encode decode w.machine [] (entry_of (suc w.applied) payload)).0;
        applied = suc w.applied;
      } in
      (
        rw put refl,
        rw
            (
              put,
              get-applied z (look_of w1) w1.machine.store key
                  (consistency_mode later.consistency none) later.session_index later.min_version hs
                  hm,
              found,
            )
            refl,
      )
