-- ===== src/Skiplist/Tombstone.antt =====
-- internal/storage/skiplist/skiplist.go: `Delete` marks the entry of a key, or puts a marked one.
use on_cloud_kv.Prelude.{ℕ, ◌≡◌, refl, sym, ap, ◌∙◌, Bool, true, Option, none, some, List, []}
use on_cloud_kv.Keys.{Key, key_eqb_refl}
use on_cloud_kv.Entry.{Entry}
use on_cloud_kv.Entries.{find, upsert, find-upsert, upsert-upsert}
use on_cloud_kv.Skiplist.{Skiplist, entry_at, find_node, get, put, mark_deleted, delete_at, delete}
use on_cloud_kv.Skiplist.Invariant.{Represents, find_node-above, get-find}
use on_cloud_kv.Skiplist.Refine.{live, overwrite_found, put-Represents}

-- What a key holds once it is deleted: its last value, or no value, at the version of the deletion.
abbrev pub tombstone : Key → ℕ → Option Entry → Entry
tombstone k version none = record { key = k; value = []; version = version; deleted = true }
tombstone k version (some x) = record x { version = version; deleted = true }

-- A node that a search finds holds the entry of the key.
entry_found :
    (s : Skiplist) (es : List Entry) (k : Key) (r : Represents s es) (n : ℕ)
    → find_node s k ≡ some n
    → find k es ≡ some (s.node n).entry
unfolding get entry_at
entry_found s es k r n e = sym (get-find s es k r) ∙ rw e

entry_missing :
    (s : Skiplist) (es : List Entry) (k : Key) (r : Represents s es)
    → find_node s k ≡ none
    → find k es ≡ none
unfolding get entry_at
entry_missing s es k r e = sym (get-find s es k r) ∙ rw e

mark_deleted-Represents :
    (s : Skiplist) (es : List Entry) (k : Key) (r : Represents s es) (x : Entry) (o : Option ℕ)
    → find_node s k ≡ o
    → find k es ≡ some x
    → Represents (mark_deleted s o) (upsert (record x { deleted = true }) es)
unfolding mark_deleted
mark_deleted-Represents s es k r x none e f = cc (f, entry_missing s es k r e)
mark_deleted-Represents s es k r x (some n) e f =
    let q : (s.node n).entry ≡ x = cc (entry_found s es k r n e) in
    overwrite_found s es k r n (record (s.node n).entry { deleted = true })
      (record x { deleted = true }) (sym (find_node-above s r.ids r.valid k) ∙ e) refl
      (ap (λ (z : Entry). record z { deleted = true }) q)

delete_at-Represents :
    (s : Skiplist) (es : List Entry) (k : Key) (r : Represents s es) (rolls : List Bool)
    (version : ℕ) (o : Option ℕ)
    → find_node s k ≡ o
    → Represents (delete_at s rolls k version o) (upsert (tombstone k version (find k es)) es)
unfolding delete_at
delete_at-Represents s es k r rolls version none e =
    let es' = upsert (live k [] version) es in
    let s' = put s rolls k [] version in
    let r' = put-Represents s es k r rolls [] version in
    let written : find k es' ≡ some (live k [] version) = rw (find-upsert, key_eqb_refl k) in
    let both = upsert-upsert (tombstone k version none) (live k [] version) es refl in
    rw (entry_missing s es k r e, ← both)
      (mark_deleted-Represents s' es' k r' (live k [] version) (find_node s' k) refl written)
delete_at-Represents s es k r rolls version (some n) e =
    overwrite_found s es k r n (record (s.node n).entry { version = version; deleted = true })
      (tombstone k version (find k es)) (sym (find_node-above s r.ids r.valid k) ∙ e) refl
      (ap (tombstone k version) (sym (entry_found s es k r n e)))

-- On a well-formed list of entries `Delete` keeps the list well-formed and leaves a tombstone for
-- the key, at the version of the deletion, which keeps the value that the key had.
pub delete-Represents :
    (s : Skiplist) (es : List Entry) (k : Key) (r : Represents s es) (rolls : List Bool)
    (version : ℕ)
    → Represents (delete s rolls k version) (upsert (tombstone k version (find k es)) es)
unfolding delete
delete-Represents s es k r rolls version =
    delete_at-Represents s es k r rolls version (find_node s k) refl
