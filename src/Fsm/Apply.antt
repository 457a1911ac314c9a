-- ===== src/Fsm/Apply.antt =====
-- internal/consensus/fsm.go: what a committed log entry does.
use on_cloud_kv.Prelude.{
  ℕ, ◌==◌, ◌≡◌, refl, sym, ◌∙◌, Bool, true, Option, none, some, List, [], if◌then◌else◌, Bool-cases,
  inl, inr,
}
use on_cloud_kv.Bytes.{Bytes}
use on_cloud_kv.Keys.{key_eqb_refl}
use on_cloud_kv.Entry.{Entry}
use on_cloud_kv.Bloom.{Sizing}
use on_cloud_kv.Skiplist.Refine.{live}
use on_cloud_kv.Sstable.Reader.{ok}
use on_cloud_kv.Engine
use on_cloud_kv.Engine.{Journal, Engine, WalRecord, get}
use on_cloud_kv.Engine.Reads.{Stores}
use on_cloud_kv.Engine.Writes.{put-get}
use on_cloud_kv.Watch.{Event, event_put, event_delete, notify}
use on_cloud_kv.Fsm.{Command, Fsm, RaftLog, failed, apply_result, after_write, apply_command, apply}

-- The event of a command, if its type is known.
abbrev pub event_of : ℕ → Command → Event
event_of version cmd =
    if cmd.type == 0
    then record { type = event_put; key = cmd.key; value = cmd.value; version = version }
    else record { type = event_delete; key = cmd.key; value = []; version = version }

apply_result-injective : (a b : ℕ) → apply_result a ≡ apply_result b → a ≡ b
apply_result-injective a b h = cc

module _ (j : Journal) (encode : WalRecord → Bytes) (decode : Bytes → Option Command) where
  open j use {Log, IoError}

  after_write_told :
      (f : Fsm Log) (e : Event) (r : Engine Log × Option IoError) (version : ℕ)
      → (after_write j encode f e r).1 ≡ apply_result version
      → (r.1 ≡ none)
        × ((after_write j encode f e r).0.store ≡ r.0)
        × ((after_write j encode f e r).0.watcher ≡ notify f.watcher e)
        × (version ≡ e.version)
  unfolding after_write
  after_write_told f e (store, some io) version h = cc
  after_write_told f e (store, none) version h =
      (refl, refl, refl, apply_result-injective version e.version (sym h))

  after_write_quiet :
      (f : Fsm Log) (e : Event) (r : Engine Log × Option IoError)
      → (after_write j encode f e r).1 ≡ failed
      → (after_write j encode f e r).0.watcher ≡ f.watcher
  unfolding after_write
  after_write_quiet f e (store, some io) h = refl
  after_write_quiet f e (store, none) h = cc

  command_told :
      (f : Fsm Log) (draw : List Bool) (index version : ℕ) (cmd : Command)
      → (apply_command j encode f draw index (some cmd)).1 ≡ apply_result version
      → ((apply_command j encode f draw index (some cmd)).0.watcher
          ≡ notify f.watcher (event_of index cmd))
        × (version ≡ index)
  unfolding apply_command
  command_told f draw index version cmd h = elim (Bool-cases (cmd.type == 0)) [
    | inl is_put ↦
        let e : Event = record {
          type = event_put;
          key = cmd.key;
          value = cmd.value;
          version = index;
        } in
        let (_, _, told, same) =
          after_write_told f e (Engine.put j encode f.store draw cmd.key cmd.value index) version
            (rw is_put at h) in
        rw is_put (told, same)
    | inr other ↦ elim (Bool-cases (cmd.type == 1)) [
      | inl is_delete ↦
          let e : Event = record {
            type = event_delete;
            key = cmd.key;
            value = [];
            version = index;
          } in
          let (_, _, told, same) =
            after_write_told f e (Engine.delete j encode f.store draw cmd.key index) version
              (rw (other, is_delete) at h) in
          rw (other, is_delete) (told, same)
      | inr unknown ↦ cc (rw (other, unknown) at h)
    ]
  ]

  command_quiet :
      (f : Fsm Log) (draw : List Bool) (index : ℕ) (cmd : Option Command)
      → (apply_command j encode f draw index cmd).1 ≡ failed
      → (apply_command j encode f draw index cmd).0.watcher ≡ f.watcher
  unfolding apply_command
  command_quiet f draw index none h = refl
  command_quiet f draw index (some cmd) h = elim (Bool-cases (cmd.type == 0)) [
    | inl is_put ↦
        let e : Event = record {
          type = event_put;
          key = cmd.key;
          value = cmd.value;
          version = index;
        } in
        rw is_put (
          after_write_quiet f e (Engine.put j encode f.store draw cmd.key cmd.value index)
            (rw is_put at h))
    | inr other ↦ elim (Bool-cases (cmd.type == 1)) [
      | inl is_delete ↦
          let e : Event = record {
            type = event_delete;
            key = cmd.key;
            value = [];
            version = index;
          } in
          rw (other, is_delete)
            (after_write_quiet f e (Engine.delete j encode f.store draw cmd.key index)
              (rw (other, is_delete) at h))
      | inr unknown ↦ rw (other, unknown)
    ]
  ]

  -- A committed command that decodes and is answered with a result is answered with its log index
  -- as the version, and the watchers are told of it at that version.
  pub apply-watcher :
      (f : Fsm Log) (draw : List Bool) (index version : ℕ) (payload : Bytes) (cmd : Command)
      → decode payload ≡ some cmd
      → (apply j encode decode f draw
          (record { is_command = true; index = index; payload = payload })).1
        ≡ apply_result version
      → ((apply j encode decode f draw
            (record { is_command = true; index = index; payload = payload })).0.watcher
          ≡ notify f.watcher (event_of index cmd))
        × (version ≡ index)
  unfolding apply
  apply-watcher f draw index version payload cmd d h =
      rw d (command_told f draw index version cmd (rw d at h))

  -- A log entry that the machine refuses, for any reason, tells the watchers nothing.
  pub apply-quiet :
      (f : Fsm Log) (draw : List Bool) (l : RaftLog)
      → (apply j encode decode f draw l).1 ≡ failed
      → (apply j encode decode f draw l).0.watcher ≡ f.watcher
  unfolding apply
  apply-quiet f draw l h = elim (Bool-cases l.is_command) [
    | inl is_command ↦
        rw is_command (command_quiet f draw l.index (decode l.payload) (rw is_command at h))
    | inr other ↦ rw other
  ]

  -- On a store of well-formed memtables and tables, after a put that Raft committed and the machine
  -- answered with a result, the store returns the value under its key, at the log index as its
  -- version.
  pub apply-get :
      (z : Sizing) (f : Fsm Log) (memory pending : List Entry) (tables : List (List Entry))
      (draw : List Bool) (index version : ℕ) (payload : Bytes) (cmd : Command)
      → Stores f.store memory pending tables
      → decode payload ≡ some cmd
      → (cmd.type == 0) ≡ true
      → (apply j encode decode f draw
          (record { is_command = true; index = index; payload = payload })).1
        ≡ apply_result version
      → get z
          (apply j encode decode f draw
            (record { is_command = true; index = index; payload = payload })).0.store
          cmd.key
        ≡ ok (live cmd.key cmd.value index, true)
  unfolding apply apply_command
  apply-get z f memory pending tables draw index version payload cmd st d is_put h =
      let e : Event = record {
        type = event_put;
        key = cmd.key;
        value = cmd.value;
        version = index;
      } in
      let (fine, stored, _, _) =
        after_write_told f e (Engine.put j encode f.store draw cmd.key cmd.value index) version
          (rw (d, is_put) at h) in
      rw (d, is_put, stored)
        (put-get j encode f.store memory pending tables st draw cmd.key index z cmd.value cmd.key
            fine
          ∙ rw key_eqb_refl)
