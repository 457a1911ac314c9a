-- ===== src/HttpApi.antt =====
-- internal/api/http/server.go: the handlers of the REST gateway. The node, its leader's address and
-- strconv's parsers, which give 0 for a text that is no number, are parameters; metrics and logging are left
-- out.
pub mod Mirror
use Prim.Native.String.{String}
use on_cloud_kv.Prelude.{
  ℕ, ◌*◌, ◌^◌, ◌==◌, Bool, true, false, Option, none, some, List, [], ◌∷◌, map, leb, take, drop,
  if◌then◌else◌,
}
use on_cloud_kv.Bytes.{Bytes}
use on_cloud_kv.Keys.{Key, key_eqb}
use on_cloud_kv.Entry.{Entry}
use on_cloud_kv.Bloom.{Sizing}
use on_cloud_kv.Sstable.Reader.{Outcome, ok, err, panic, out_of_fuel}
use on_cloud_kv.Engine
use on_cloud_kv.Engine.{Engine}
use on_cloud_kv.Fsm.{Command}
use on_cloud_kv.Batch.{BatchResult}
use on_cloud_kv.Router
use on_cloud_kv.Router.{Mode, eventual, Look, Reply, replied, refused, pending}

pub data Method : Type 0 where
  get_method put_method post_method delete_method other_method : Method

-- A request: the path of its URL, the headers and query values as text, an empty one being none, the body,
-- and how many bytes of it the first `Read` hands over to a buffer that is large enough.
pub record Request : Type 0 where
  pub method : Method
  pub path : Bytes
  pub consistency : Option Mode
  pub session_index : Bytes
  pub min_version : Bytes
  pub ttl : Bytes
  pub body : Bytes
  pub first_read : ℕ

-- A status with no more than a message; 307 with the X-Leader header; a status with the X-Raft-Index
-- header; 200 with the X-Version header and a value. A handler may also panic or not have ended.
pub data Response : Type 0 where
  status : ℕ → Response
  redirect : Key → Response
  indexed : ℕ → ℕ → Response
  value : ℕ → Bytes → Response
  crashed waiting : Response

abbrev pub body_size : ℕ
body_size = 4 * 2 ^ 20

-- `r.Body.Read(buf)`, once
unfoldable pub read_body : Request → Bytes
read_body r = take (if leb r.first_read body_size then r.first_read else body_size) r.body

unfoldable pub answer_found : Entry × Bool → Response
answer_found (e, false) = status 404
answer_found (e, true) = value e.version e.value

unfoldable pub answer_get : Reply → Response
answer_get (replied (ok a)) = answer_found a
answer_get (replied err) = status 500
answer_get (replied panic) = crashed
answer_get (replied out_of_fuel) = waiting
answer_get refused = status 500
answer_get pending = waiting

unfoldable pub mode_of : Option Mode → Mode
mode_of none = eventual
mode_of (some mode) = mode

-- The outcome of reads at this moment: the answer of `VerifyLeader`, the looks of the wait, and the store.
pub record ReadState (Log : Type 0) : Type 0 where
  pub verified : Bool
  pub looks : List Look
  pub store : Engine Log

unfoldable pub answer_write : {Node : Type 0} → ℕ → Node × BatchResult → Node × Response
answer_write done (node, res) =
    (node, (if res.has_error then status 500 else indexed done res.version))

module _ (parse_int : Bytes → ℕ) (Node : Type 0) (is_leader : Node → Bool)
    (leader_addr : Node → Key) (submit : Node → Command → Node × BatchResult) where
  -- `getKey`
  unfoldable pub get_key : {Log : Type 0} → Sizing → ReadState Log → Request → Key → Response
  get_key z s r key = answer_get (
      Router.get z s.verified s.looks s.store key (mode_of r.consistency)
        (parse_int r.session_index) (parse_int r.min_version))

  -- `putKey`
  unfoldable pub put_key : Node → Request → Key → Node × Response
  put_key node r key =
      if is_leader node
      then answer_write 200 (
          submit node
            (record { type = 0; key = key; value = read_body r; ttl_seconds = parse_int r.ttl }))
      else (node, redirect (leader_addr node))

  -- `deleteKey`
  unfoldable pub delete_key : Node → Key → Node × Response
  delete_key node key =
      if is_leader node
      then answer_write 204
          (submit node (record { type = 1; key = key; value = []; ttl_seconds = 0 }))
      else (node, redirect (leader_addr node))

  unfoldable pub dispatch :
      {Log : Type 0} → Sizing → Node → ReadState Log → Request → Key → Method → Node × Response
  dispatch z node s r key get_method = (node, get_key z s r key)
  dispatch z node s r key put_method = put_key node r key
  dispatch z node s r key post_method = put_key node r key
  dispatch z node s r key delete_method = delete_key node key
  dispatch z node s r key other_method = (node, status 405)

  -- `handleKey`; the multiplexer hands it paths that begin with /v1/keys/, nine bytes.
  unfoldable pub handle_key :
      {Log : Type 0} → Sizing → Node → ReadState Log → Request → Node × Response
  handle_key z node s r =
      let key = drop 9 r.path in
      if key_eqb key [] then (node, status 400) else dispatch z node s r key r.method

pub record Item : Type 0 where
  pub key : Key
  pub value : Bytes
  pub version : ℕ

unfoldable pub scan_items : Outcome (List Entry) → Option (List Item)
scan_items (ok es) =
    some (map (λ (e : Entry). record { key = e.key; value = e.value; version = e.version }) es)
scan_items err = none
scan_items panic = none
scan_items out_of_fuel = none

-- `handleScan`, where no read panics
unfoldable pub handle_scan :
    {Log : Type 0} → (Bytes → ℕ) → Sizing → Engine Log → Key → Bytes → Option (List Item)
handle_scan atoi z store prefix limit = scan_items (Engine.scan z store prefix (atoi limit))

-- `handleReadyz`, on the applied index
unfoldable pub handle_readyz : ℕ → Response
handle_readyz applied_index = if applied_index == 0 then status 503 else status 200

-- `handleStatus`: the statistics of Raft, as JSON
unfoldable pub handle_status : (List (String × String) → Bytes) → List (String × String) → Bytes
handle_status marshal stats = marshal stats

pub data Handler : Type 0 where
  key_handler scan_handler status_handler healthz_handler readyz_handler : Handler

-- The routes that `Listen` gives the multiplexer.
unfoldable pub routes : List (String × Handler)
routes =
    ("/v1/keys/", key_handler)
    ∷ ("/v1/scan", scan_handler)
    ∷ ("/v1/status", status_handler)
    ∷ ("/healthz", healthz_handler)
    ∷ ("/readyz", readyz_handler)
    ∷ []
