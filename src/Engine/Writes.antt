-- ===== src/Engine/Writes.antt =====
-- internal/storage/engine.go: `Get` after `Put` and `Delete`.
use on_cloud_kv.Prelude.{
  ℕ, ◌≡◌, refl, ap, ◌∙◌, Bool, true, false, not, Option, none, some, List, [], ◌∷◌, arith,
  if◌then◌else◌, Bool-cases, inl, inr, leb,
}
use on_cloud_kv.Bytes.{Bytes}
use on_cloud_kv.Keys.{Key, key_eqb, key_eqb_iff}
use on_cloud_kv.Entry.{Entry}
use on_cloud_kv.Entries.{find, upsert, find-upsert}
use on_cloud_kv.Bloom.{Sizing}
use on_cloud_kv.Skiplist
use on_cloud_kv.Skiplist.{Skiplist}
use on_cloud_kv.Skiplist.Refine.{live, put-Represents}
use on_cloud_kv.Skiplist.Tombstone.{tombstone, delete-Represents}
use on_cloud_kv.Sstable.Reader.{ok}
use on_cloud_kv.Engine.{
  Journal, Engine, WalRecord, op_put, op_delete, request_flush, put_answered, put, delete_answered,
  delete, answer, get,
}
use on_cloud_kv.Entries.Maps.{or_else}
use on_cloud_kv.Engine.Reads.{Stores, newest, get-answer}

-- A request to flush changes nothing that is stored.
request_flush-Stores :
    {Log : Type 0} (e : Engine Log) (memory pending : List Entry) (tables : List (List Entry))
    → Stores e memory pending tables
    → Stores (request_flush e) memory pending tables
unfolding request_flush
request_flush-Stores e memory pending tables st =
    elim (Bool-cases (leb e.max_mem e.memtable.mem_size)) [
      | inl full ↦
          rw full
            (record { in_memory = st.in_memory; in_pending = st.in_pending; on_disk = st.on_disk })
      | inr room ↦ rw room st
    ]

-- A new entry in the memtable hides every other entry of its key, and no other.
pub newest-upsert :
    (e : Entry) (memory : List Entry) (ess : List (List Entry)) (j : Key)
    → newest j (upsert e memory ∷ ess)
      ≡ (if key_eqb e.key j then some e else newest j (memory ∷ ess))
unfolding newest or_else
newest-upsert e memory ess j = elim (Bool-cases (key_eqb e.key j)) [
  | inl same ↦ rw (find-upsert, same)
  | inr other ↦ rw (find-upsert, other)
]

found-key : (k : Key) (es : List Entry) (x : Entry) → find k es ≡ some x → x.key ≡ k
unfolding find
found-key k [] x e = cc
found-key k (y ∷ es) x e = elim (Bool-cases (key_eqb y.key k)) [
  | inl same ↦ let q : y ≡ x = ground (arith, same) in rw (← q) ((key_eqb_iff y.key k).0 same)
  | inr other ↦ found-key k es x (rw other at e)
]

pub tombstone-key :
    (es : List Entry) (k : Key) (version : ℕ) → (tombstone k version (find k es)).key ≡ k
tombstone-key es k version = go (find k es) refl
  where
    go : (o : Option Entry) → find k es ≡ o → (tombstone k version o).key ≡ k
    go none e = refl
    go (some x) e = found-key k es x e

module _ (j : Journal) (encode : WalRecord → Bytes) where
  open j use {Log, IoError, append}

  module _ (e : Engine Log) (memory pending : List Entry) (tables : List (List Entry))
      (st : Stores e memory pending tables) (draw : List Bool) (k : Key) (version : ℕ) where
    put_answered-Stores :
        (v : Bytes) (r : Log × Option IoError)
        → (put_answered j encode e draw k v version r).1 ≡ none
        → Stores
            (put_answered j encode e draw k v version r).0
            (upsert (live k v version) memory)
            pending
            tables
    unfolding put_answered
    put_answered-Stores v (l, some io) h = cc
    put_answered-Stores v (l, none) h =
        request_flush-Stores
          (record e { wal = l; memtable = Skiplist.put e.memtable draw k v version })
          (upsert (live k v version) memory) pending tables
          (record {
            in_memory = put-Represents e.memtable memory k st.in_memory draw v version;
            in_pending = st.in_pending;
            on_disk = st.on_disk;
          })

    -- A put that is answered without an error changes the entry of its key in the memtable.
    pub put-Stores :
        (v : Bytes)
        → (put j encode e draw k v version).1 ≡ none
        → Stores
            (put j encode e draw k v version).0
            (upsert (live k v version) memory)
            pending
            tables
    unfolding put
    put-Stores v h =
        put_answered-Stores v
          (append e.wal (encode (record { op = op_put; key = k; value = v; version = version }))) h

    delete_answered-Stores :
        (r : Log × Option IoError)
        → (delete_answered j encode e draw k version r).1 ≡ none
        → Stores
            (delete_answered j encode e draw k version r).0
            (upsert (tombstone k version (find k memory)) memory)
            pending
            tables
    unfolding delete_answered
    delete_answered-Stores (l, some io) h = cc
    delete_answered-Stores (l, none) h = record {
      in_memory = delete-Represents e.memtable memory k st.in_memory draw version;
      in_pending = st.in_pending;
      on_disk = st.on_disk;
    }

    pub delete-Stores :
        (delete j encode e draw k version).1 ≡ none
        → Stores
            (delete j encode e draw k version).0
            (upsert (tombstone k version (find k memory)) memory)
            pending
            tables
    unfolding delete
    delete-Stores h =
        delete_answered-Stores
          (append e.wal
            (encode (record { op = op_delete; key = k; value = []; version = version })))
          h

    -- On an engine of well-formed memtables and tables, after a put that is answered without an
    -- error, `Get` returns the value under its key, at its version, and what it returned before
    -- under any other key.
    pub put-get :
        (z : Sizing) (v : Bytes) (i : Key)
        → (put j encode e draw k v version).1 ≡ none
        → get z (put j encode e draw k v version).0 i
          ≡ (if key_eqb k i then ok (live k v version, true) else get z e i)
    unfolding answer
    put-get z v i h =
        get-answer z (put j encode e draw k v version).0 (upsert (live k v version) memory) pending
          tables i (put-Stores v h)
        ∙ rw (newest-upsert, get-answer z e memory pending tables i st)
            (elim (Bool-cases (key_eqb k i)) [ inl same ↦ rw same | inr other ↦ rw other ])

    -- On an engine of well-formed memtables and tables, after a delete that is answered without an
    -- error, `Get` answers the key with its tombstone and not found, also if older tables hold it,
    -- and any other key as before.
    pub delete-get :
        (z : Sizing) (i : Key)
        → (delete j encode e draw k version).1 ≡ none
        → get z (delete j encode e draw k version).0 i
          ≡ (if key_eqb k i then ok (tombstone k version (find k memory), false) else get z e i)
    unfolding answer
    delete-get z i h =
        get-answer z (delete j encode e draw k version).0
          (upsert (tombstone k version (find k memory)) memory) pending tables i (delete-Stores h)
        ∙ rw
            (
              newest-upsert,
              get-answer z e memory pending tables i st,
              tombstone-key memory k version,
            )
            (elim (Bool-cases (key_eqb k i)) [
              | inl same ↦ rw same (
                  ap (λ b. ok (tombstone k version (find k memory), b))
                    (tombstone_hidden (find k memory)))
              | inr other ↦ rw other
            ])
      where
        tombstone_hidden : (o : Option Entry) → not (tombstone k version o).deleted ≡ false
        tombstone_hidden none = refl
        tombstone_hidden (some x) = refl
