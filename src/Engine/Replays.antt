-- ===== src/Engine/Replays.antt =====
-- internal/storage/engine.go: `recover` builds a memtable from any records.
use on_cloud_kv.Prelude.{ℕ, suc, ◌≡◌, refl, Bool, Option, none, some, List, [], ◌∷◌, ◌++◌}
use on_cloud_kv.Bytes.{Bytes}
use on_cloud_kv.Keys.{Key}
use on_cloud_kv.Entry.{Entry}
use on_cloud_kv.Entries.{find, upsert}
use on_cloud_kv.Skiplist.{Skiplist}
use on_cloud_kv.Skiplist.Invariant.{Represents}
use on_cloud_kv.Skiplist.Refine.{live, put-Represents}
use on_cloud_kv.Skiplist.Tombstone.{tombstone, delete-Represents}
use on_cloud_kv.Engine.{WalRecord, Op, op_put, op_delete, op_other, replay_record, recover}

-- What a record does to the entries.
unfoldable pub apply_record : List Entry → Option WalRecord → List Entry
apply_record es none = es
apply_record es (some rec) = elim rec.op [
  | op_put ↦ upsert (live rec.key rec.value rec.version) es
  | op_delete ↦ upsert (tombstone rec.key rec.version (find rec.key es)) es
  | op_other ↦ es
]

unfoldable pub apply_records : (Bytes → Option WalRecord) → List Entry → List Bytes → List Entry
apply_records decode es [] = es
apply_records decode es (raw ∷ records) =
    apply_records decode (apply_record es (decode raw)) records

pub apply_records-append :
    (decode : Bytes → Option WalRecord) (es : List Entry) (xs ys : List Bytes)
    → apply_records decode es (xs ++ ys) ≡ apply_records decode (apply_records decode es xs) ys
unfolding apply_records
apply_records-append decode es [] ys = refl
apply_records-append decode es (x ∷ xs) ys =
    apply_records-append decode (apply_record es (decode x)) xs ys

replay_op-Represents :
    (m : Skiplist) (es : List Entry) (draw : List Bool) (op : Op) (k : Key) (v : Bytes)
    (version : ℕ)
    → Represents m es
    → Represents
        (replay_record m draw (some (record { op = op; key = k; value = v; version = version })))
        (apply_record es (some (record { op = op; key = k; value = v; version = version })))
unfolding replay_record apply_record
replay_op-Represents m es draw op_put k v version r = put-Represents m es k r draw v version
replay_op-Represents m es draw op_delete k v version r = delete-Represents m es k r draw version
replay_op-Represents m es draw op_other k v version r = r

replay_record-Represents :
    (m : Skiplist) (es : List Entry) (draw : List Bool) (rec : Option WalRecord)
    → Represents m es
    → Represents (replay_record m draw rec) (apply_record es rec)
unfolding replay_record apply_record
replay_record-Represents m es draw none r = r
replay_record-Represents m es draw (some rec) r =
    replay_op-Represents m es draw rec.op rec.key rec.value rec.version r

-- Recovery builds a well-formed memtable that holds what the records say, in their order, whatever levels
-- are drawn and whichever records do not decode.
pub recover-Represents :
    (decode : Bytes → Option WalRecord) (draws : ℕ → List Bool) (n : ℕ) (m : Skiplist)
    (es : List Entry) (raws : List Bytes)
    → Represents m es
    → Represents (recover decode draws n m raws) (apply_records decode es raws)
unfolding recover apply_records
recover-Represents decode draws n m es [] r = r
recover-Represents decode draws n m es (raw ∷ raws) r =
    recover-Represents decode draws (suc n) (replay_record m (draws n) (decode raw))
      (apply_record es (decode raw)) raws (replay_record-Represents m es (draws n) (decode raw) r)
