-- ===== src/Api/Writes.antt =====
-- internal/api/grpc/server.go: what a successful write says.
use on_cloud_kv.Prelude.{
  ℕ, ◌≡◌, ◌==◌, refl, Bool, true, false, Option, none, some, [], Bool-cases, inl, inr,
}
use on_cloud_kv.Bytes.{Bytes}
use on_cloud_kv.Keys.{Key, key_eqb}
use on_cloud_kv.Engine
use on_cloud_kv.Engine.{Journal, Engine, WalRecord, op_put, put_answered}
use on_cloud_kv.Fsm.{Command, Fsm, failed, apply, apply_command, after_write}
use on_cloud_kv.Watch.{Event, event_put}
use on_cloud_kv.Batch.{BatchResult, Future, response, result_of, flush_one}
use on_cloud_kv.Api.{success, answer_write, guarded_write, put}

module _ (Node : Type 0) (is_leader : Node → Bool)
    (submit : Node → Command → Node × BatchResult) where
  -- A put that is answered with success had a key, was made on the leader, and was answered by the
  -- batch writer with no error and with the index that the client gets; the node is as the
  -- submission left it.
  put-success :
      (node : Node) (key : Key) (value : Bytes) (ttl index : ℕ)
      → (put Node is_leader submit node key value ttl).1 ≡ success index
      → (key_eqb key [] ≡ false)
        × (is_leader node ≡ true)
        × ((submit node (record { type = 0; key = key; value = value; ttl_seconds = ttl })).1
            ≡ record { version = index; has_error = false })
        × ((put Node is_leader submit node key value ttl).0
            ≡ (submit node (record { type = 0; key = key; value = value; ttl_seconds = ttl })).0)
  unfolding put guarded_write answer_write
  put-success node key value ttl index h =
      let cmd : Command = record { type = 0; key = key; value = value; ttl_seconds = ttl } in
      elim (Bool-cases (key_eqb key [])) [
        | inl empty ↦ absurd (cc (rw empty at h))
        | inr some_key ↦ elim (Bool-cases (is_leader node)) [
          | inr follower ↦ absurd (cc (rw (some_key, follower) at h))
          | inl leads ↦ elim (Bool-cases (submit node cmd).1.has_error) [
            | inl wrong ↦ absurd (cc (rw (some_key, leads, wrong) at h))
            | inr fine ↦
                let version : (submit node cmd).1.version ≡ index =
                  cc (rw (some_key, leads, fine) at h) in
                (
                  some_key,
                  leads,
                  (λ i. record { version = version i; has_error = fine i }),
                  rw (some_key, leads),
                )
          ]
        ]
      ]

module _ (j : Journal) (encode : WalRecord → Bytes) (marshal : Command → Option Bytes)
    (decode : Bytes → Option Command) where
  open j use {Log, IoError, append}

  -- A Raft group of one node that commits every proposal at a log index and applies it at once.
  abbrev pub propose_at : ℕ → Fsm Log → Bytes → Fsm Log × Future
  propose_at index f d =
      let (f1, res) =
        apply j encode decode f [] (record { is_command = true; index = index; payload = d }) in
      (f1, response res)

  abbrev pub submit_at : ℕ → Fsm Log → Command → Fsm Log × BatchResult
  submit_at index f cmd = flush_one (Fsm Log) (propose_at index) marshal f (marshal cmd)

  put_answered_refused :
      (e : Engine Log) (k : Key) (v : Bytes) (version : ℕ) (io : IoError) (r : Log × Option IoError)
      → r.1 ≡ some io
      → (put_answered j encode e [] k v version r).1 ≡ some io
  unfolding put_answered
  put_answered_refused e k v version io (l, some x) h = h
  put_answered_refused e k v version io (l, none) h = cc

  after_write_refused :
      (f : Fsm Log) (e : Event) (io : IoError) (r : Engine Log × Option IoError)
      → r.1 ≡ some io
      → (after_write j encode f e r).1 ≡ failed
  unfolding after_write
  after_write_refused f e io (store, some x) h = refl
  after_write_refused f e io (store, none) h = cc

  apply_refused :
      (f : Fsm Log) (index : ℕ) (payload : Bytes) (cmd : Command) (io : IoError)
      → (cmd.type == 0) ≡ true
      → decode payload ≡ some cmd
      → (append f.store.wal
          (encode (record { op = op_put; key = cmd.key; value = cmd.value; version = index }))).1
        ≡ some io
      → (apply j encode decode f []
          (record { is_command = true; index = index; payload = payload })).1
        ≡ failed
  unfolding apply apply_command Engine.put
  apply_refused f index payload cmd io is_put d broken =
      rw (d, is_put)
        (after_write_refused f
          (record { type = event_put; key = cmd.key; value = cmd.value; version = index }) io
          (Engine.put j encode f.store [] cmd.key cmd.value index)
          (put_answered_refused f.store cmd.key cmd.value index io
            (append f.store.wal
              (encode (record { op = op_put; key = cmd.key; value = cmd.value; version = index })))
            broken))

  -- A put on a leader, with a key, that the engine refuses since its log cannot be written, is
  -- answered with success all the same, with the Raft index 0, if the command survives its
  -- encoding: on a Raft group of one node that commits what is proposed and applies it at once.
  pub put-refused :
      (f : Fsm Log) (key : Key) (value : Bytes) (ttl index : ℕ) (payload : Bytes) (io : IoError)
      → key_eqb key [] ≡ false
      → marshal (record { type = 0; key = key; value = value; ttl_seconds = ttl }) ≡ some payload
      → decode payload ≡ some (record { type = 0; key = key; value = value; ttl_seconds = ttl })
      → (append f.store.wal
          (encode (record { op = op_put; key = key; value = value; version = index }))).1
        ≡ some io
      → (put (Fsm Log) (λ n. true) (submit_at index) f key value ttl).1 ≡ success 0
  unfolding put guarded_write answer_write flush_one result_of
  put-refused f key value ttl index payload io some_key encoded decoded broken =
      let cmd : Command = record { type = 0; key = key; value = value; ttl_seconds = ttl } in
      rw (some_key, encoded, apply_refused f index payload cmd io refl decoded broken)
