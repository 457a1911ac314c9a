-- ===== src/HttpApi/Mirror.antt =====
-- internal/api/http/server.go against internal/api/grpc/server.go: "All operations mirror the gRPC service".
use on_cloud_kv.Prelude.{
  ℕ, ◌≤◌, ◌≡◌, refl, ap, Bool, true, false, Option, none, some, [], ◌∷◌, length, drop, leb,
  if◌then◌else◌, Bool-cases, inl, inr, take_all,
}
use on_cloud_kv.Bytes.{Bytes}
use on_cloud_kv.Keys.{Key, key_eqb}
use on_cloud_kv.Entry.{Entry}
use on_cloud_kv.Bloom.{Sizing}
use on_cloud_kv.Sstable.Reader.{ok, err, panic, out_of_fuel}
use on_cloud_kv.Fsm.{Command}
use on_cloud_kv.Batch.{BatchResult}
use on_cloud_kv.Router
use on_cloud_kv.Router.{Mode, eventual, Look, Reply, replied, refused, pending}
use on_cloud_kv.Api
use on_cloud_kv.Api.{
  Code, invalid_argument, unavailable, internal, WriteReply, denied, success, ReadReply, answered,
}
use on_cloud_kv.HttpApi.{
  get_method, put_method, delete_method, Request, Response, status, redirect, indexed, value,
  crashed, waiting, body_size, read_body, answer_found, answer_get, mode_of, ReadState, get_key,
  answer_write, put_key, delete_key, dispatch, handle_key,
}

-- The path of a key: "/v1/keys/" and the key.
abbrev pub key_path : Key → Bytes
key_path key = b'/' ∷ b'v' ∷ b'1' ∷ b'/' ∷ b'k' ∷ b'e' ∷ b'y' ∷ b's' ∷ b'/' ∷ key

-- The HTTP status for a status code of gRPC.
abbrev pub as_response : Key → ℕ → WriteReply → Response
as_response leader done (success index) = indexed done index
as_response leader done (denied invalid_argument) = status 400
as_response leader done (denied unavailable) = redirect leader
as_response leader done (denied internal) = status 500

-- A key that is not found has no value over HTTP.
abbrev pub as_read : ReadReply → Response
as_read (answered r) = if r.found then value r.version r.value else status 404
as_read Api.failed = status 500
as_read Api.crashed = crashed
as_read Api.waiting = waiting

-- The first read takes the whole body.
abbrev pub ReadWhole : Request → Type 0
ReadWhole r = (length r.body ≤ r.first_read) × (length r.body ≤ body_size)

read_body-ReadWhole : (r : Request) → ReadWhole r → read_body r ≡ r.body
unfolding read_body
read_body-ReadWhole r h = elim (Bool-cases (leb r.first_read body_size)) [
  | inl fits ↦ rw fits (take_all r.first_read r.body h.0)
  | inr long ↦ rw long (take_all body_size r.body h.1)
]

module _ (parse_int : Bytes → ℕ) (Node : Type 0) (is_leader : Node → Bool)
    (leader_addr : Node → Key) (submit : Node → Command → Node × BatchResult) where
  answer_write-mirrors :
      (leader : Key) (done : ℕ) (r : Node × BatchResult)
      → answer_write done r ≡ (
        (Api.answer_write Node is_leader submit r).0,
        as_response leader done (Api.answer_write Node is_leader submit r).1,
      )
  unfolding answer_write Api.answer_write
  answer_write-mirrors leader done (node, res) = elim (Bool-cases res.has_error) [
    | inl wrong ↦ rw wrong
    | inr fine ↦ rw fine
  ]

  -- The guards of the two handlers, in their two orders.
  guarded_write-mirrors :
      (node : Node) (done : ℕ) (cmd : Command)
      → (if key_eqb cmd.key []
          then (node, status 400)
          else if is_leader node
          then answer_write done (submit node cmd)
          else (node, redirect (leader_addr node)))
        ≡ (
          (Api.guarded_write Node is_leader submit node cmd).0,
          as_response (leader_addr node) done (Api.guarded_write Node is_leader submit node cmd).1,
        )
  unfolding Api.guarded_write
  guarded_write-mirrors node done cmd = elim (Bool-cases (key_eqb cmd.key [])) [
    | inl empty ↦ rw empty
    | inr some_key ↦ rw some_key (elim (Bool-cases (is_leader node)) [
      | inl leads ↦ rw leads (answer_write-mirrors (leader_addr node) done (submit node cmd))
      | inr follows ↦ rw follows
    ])
  ]

  found-mirrors :
      (e : Entry) (found : Bool)
      → answer_found (e, found) ≡ as_read (Api.answer_read (replied (ok (e, found))))
  unfolding answer_found Api.answer_read
  found-mirrors e true = refl
  found-mirrors e false = refl

  answer_get-mirrors : (a : Reply) → answer_get a ≡ as_read (Api.answer_read a)
  unfolding answer_get Api.answer_read
  answer_get-mirrors (replied (ok (e, found))) = found-mirrors e found
  answer_get-mirrors (replied err) = refl
  answer_get-mirrors (replied panic) = refl
  answer_get-mirrors (replied out_of_fuel) = refl
  answer_get-mirrors refused = refl
  answer_get-mirrors pending = refl

  mode-mirrors : (requested : Option Mode) → mode_of requested ≡ Api.consistency_mode requested none
  unfolding mode_of Api.consistency_mode
  mode-mirrors none = refl
  mode-mirrors (some mode) = refl

  get_key-mirrors :
      {Log : Type 0} (z : Sizing) (s : ReadState Log) (r : Request) (key : Key)
      → get_key parse_int Node is_leader leader_addr submit z s r key
        ≡ as_read (
            Api.get z s.verified s.looks s.store key r.consistency none
              (parse_int r.session_index)
              (parse_int r.min_version))
  unfolding get_key Api.get
  get_key-mirrors z s r key = rw (mode-mirrors r.consistency) (
      answer_get-mirrors (
        Router.get z s.verified s.looks s.store key (Api.consistency_mode r.consistency none)
          (parse_int r.session_index) (parse_int r.min_version)))

  -- PUT and DELETE of a key do to the node what `Put` and `Delete` of the gRPC service do, on every branch,
  -- and answer with the status that stands for the code: 400 for an empty key, 307 to the leader, 500 for a
  -- refused write, or the index. GET leaves the node alone, and answers what `Get` answers to the same mode,
  -- session index and least version: a value that is found with its version, 404 for one that is not, 500 for
  -- a failed read; but it refuses an empty key, as `Get` does not. The first read of the request hands over
  -- its whole body, which is at most 4 MiB.
  pub handle_key-mirrors :
      {Log : Type 0} (z : Sizing) (node : Node) (s : ReadState Log) (r : Request) (key : Key)
      → r.path ≡ key_path key
      → ReadWhole r
      → (handle_key parse_int Node is_leader leader_addr submit z node s
            (record r { method = put_method })
          ≡ (
            (Api.put Node is_leader submit node key r.body (parse_int r.ttl)).0,
            as_response
                (leader_addr node)
                200
                (Api.put Node is_leader submit node key r.body (parse_int r.ttl)).1,
          ))
        × (handle_key parse_int Node is_leader leader_addr submit z node s
              (record r { method = delete_method })
            ≡ (
              (Api.delete Node is_leader submit node key).0,
              as_response (leader_addr node) 204 (Api.delete Node is_leader submit node key).1,
            ))
        × (handle_key parse_int Node is_leader leader_addr submit z node s
              (record r { method = get_method })
            ≡ (
              node,
              (if key_eqb key []
                  then status 400
                  else as_read (
                      Api.get z s.verified s.looks s.store key r.consistency none
                        (parse_int r.session_index)
                        (parse_int r.min_version))),
            ))
  unfolding handle_key dispatch put_key delete_key Api.put Api.delete
  handle_key-mirrors z node s r key path whole =
      let rest : drop 9 r.path ≡ key = ap (drop 9) path in
      let body : read_body (record r { method = put_method }) ≡ r.body =
        read_body-ReadWhole (record r { method = put_method }) whole in
      (
        rw rest (
            rw body (
              guarded_write-mirrors node 200
                (record { type = 0; key = key; value = r.body; ttl_seconds = parse_int r.ttl }))),
        rw rest (
            guarded_write-mirrors node 204
              (record { type = 1; key = key; value = []; ttl_seconds = 0 })),
        rw rest (
            rw (get_key-mirrors z s (record r { method = get_method }) key)
              (elim (Bool-cases (key_eqb key [])) [
                | inl empty ↦ rw empty
                | inr some_key ↦ rw some_key
              ])),
      )
