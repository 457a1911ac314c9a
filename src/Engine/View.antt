-- ===== src/Engine/View.antt =====
-- internal/storage/engine.go: the map that the engine should be, and what a client sees of an entry.
use on_cloud_kv.Prelude.{
  ℕ, ◌≡◌, refl, Bool, Option, none, some, List, ◌∷◌, arith, if◌then◌else◌, Bool-cases, inl, inr,
}
use on_cloud_kv.Keys.{Key, key_eqb}
use on_cloud_kv.Entry.{Entry}
use on_cloud_kv.Entries.{find}
use on_cloud_kv.Skiplist.Refine.{live}
use on_cloud_kv.Skiplist.Tombstone.{tombstone}
use on_cloud_kv.Engine.{answer}
use on_cloud_kv.Engine.Reads.{newest}
use on_cloud_kv.Engine.Writes.{newest-upsert, tombstone-key}
use on_cloud_kv.Engine.Recovery.{Write, put_key, delete_key, record_of}
use on_cloud_kv.Engine.Replays.{apply_record}

-- The promise of the engine: a map from keys to their entries.
abbrev pub Store : Type 0
Store = Key → Option Entry

unfoldable pub apply_write : Write → Store → Store
apply_write (put_key k v version) m j = if key_eqb k j then some (live k v version) else m j
apply_write (delete_key k version) m j = if key_eqb k j then none else m j

-- What a client sees of an entry, and of an answer: nothing of a tombstone.
unfoldable pub seen : Option Entry → Option Entry
seen none = none
seen (some e) = if e.deleted then none else some e

unfoldable pub visible : Entry × Bool → Option Entry
visible (e, found) = if found then some e else none

pub visible-answer : (o : Option Entry) → visible (answer o) ≡ seen o
unfolding visible answer seen
visible-answer none = refl
visible-answer (some e) = ground arith

seen-tombstone :
    (k : Key) (version : ℕ) (o : Option Entry) → seen (some (tombstone k version o)) ≡ none
unfolding seen
seen-tombstone k version none = refl
seen-tombstone k version (some x) = refl

-- A write to the newest of some lists changes what is seen as it changes the map.
pub seen_write :
    (w : Write) (memory : List Entry) (ess : List (List Entry)) (m : Store)
    → ((k : Key) → seen (newest k (memory ∷ ess)) ≡ m k)
    → (k : Key)
    → seen (newest k (apply_record memory (some (record_of w)) ∷ ess)) ≡ apply_write w m k
unfolding apply_record record_of apply_write seen
seen_write (put_key k v version) memory ess m reads i =
    rw newest-upsert
      (elim (Bool-cases (key_eqb k i)) [ inl same ↦ rw same | inr other ↦ rw other (reads i) ])
seen_write (delete_key k version) memory ess m reads i =
    rw (newest-upsert, tombstone-key memory k version)
      (elim (Bool-cases (key_eqb k i)) [
        | inl same ↦ rw same (seen-tombstone k version (find k memory))
        | inr other ↦ rw other (reads i)
      ])
