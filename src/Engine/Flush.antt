-- ===== src/Engine/Flush.antt =====
-- internal/storage/engine.go: `Get` while the memtable is flushed and after.
use on_cloud_kv.Prelude.{
  ℕ, ◌≡◌, refl, sym, ap, ◌∙◌, true, false, Option, some, List, [], ◌∷◌, Bool-cases, inl, inr, ◌==◌,
  ==_iff, All,
}
use on_cloud_kv.Bytes.{Bytes}
use on_cloud_kv.Keys.{Key, key_ltb}
use on_cloud_kv.Entry.{Entry}
use on_cloud_kv.Entries.{find, IsOrdered}
use on_cloud_kv.Bloom.{Sizing}
use on_cloud_kv.Skiplist
use on_cloud_kv.Skiplist.{Skiplist, Heap}
use on_cloud_kv.Skiplist.Search.{IsSorted}
use on_cloud_kv.Skiplist.Invariant.{Represents, Represents-new, entries_of}
use on_cloud_kv.Skiplist.Range.{all-entries}
use on_cloud_kv.Sstable.{build}
use on_cloud_kv.Sstable.Open.{Fits}
use on_cloud_kv.Engine.{Engine, Disk, written, set_file, swap, write_table, flush, get}
use on_cloud_kv.Entries.Maps.{or_else}
use on_cloud_kv.Engine.Reads.{Stores, TablesHold, newest, get-answer}

All-entries_of :
    (P : Entry → Type 0) (h : Heap) (xs : List ℕ)
    → All (λ x. P (h x).entry) xs
    → All P (entries_of h xs)
All-entries_of P h [] a = tt
All-entries_of P h (x ∷ xs) a = (a.0, All-entries_of P h xs a.1)

entries_of-IsOrdered : (h : Heap) (xs : List ℕ) → IsSorted h xs → IsOrdered (entries_of h xs)
entries_of-IsOrdered h [] s = tt
entries_of-IsOrdered h (x ∷ xs) s = (
  All-entries_of (λ (e : Entry). key_ltb (h x).entry.key e.key ≡ true) h xs s.0,
  entries_of-IsOrdered h xs s.1,
)

-- The entries of a memtable are in the order of their keys.
pub Represents-IsOrdered : (s : Skiplist) (es : List Entry) → Represents s es → IsOrdered es
Represents-IsOrdered s es r = rw (← r.same) (entries_of-IsOrdered s.node r.ids r.valid.sorted)

-- Writing one path leaves the tables at other paths as they are.
pub TablesHold-set_file :
    (disk : Disk) (path : ℕ) (file : Option Bytes) (paths : List ℕ) (ess : List (List Entry))
    → All (λ p. (p == path) ≡ false) paths
    → TablesHold disk paths ess
    → TablesHold (set_file disk path file) paths ess
unfolding set_file
TablesHold-set_file disk path file [] [] fresh h = tt
TablesHold-set_file disk path file [] (es ∷ ess) fresh h = absurd h
TablesHold-set_file disk path file (p ∷ paths) [] fresh h = absurd h
TablesHold-set_file disk path file (p ∷ paths) (es ∷ ess) fresh h =
    (rw fresh.0 h.0, TablesHold-set_file disk path file paths ess fresh.1 h.1)

-- The file that a flush writes holds the entries of its table.
pub set_file-build :
    (disk : Disk) (path : ℕ) (t : Skiplist) (es : List Entry)
    → Represents t es
    → set_file disk path (some (build (Skiplist.all t))) path ≡ some (build es)
unfolding set_file
set_file-build disk path t es r = rw ((==_iff path path).1 refl, (all-entries t es r).0)

module _ {Log : Type 0} (z : Sizing) (e : Engine Log) (memory : List Entry)
    (tables : List (List Entry)) (st : Stores e memory [] tables) where
  swap-Stores : Stores (swap e) [] memory tables
  unfolding swap
  swap-Stores = record {
    in_memory = Represents-new;
    in_pending = st.in_memory;
    on_disk = st.on_disk;
  }

  -- On an engine of well-formed memtables and tables every read between the two critical sections
  -- of a flush answers what it answered before it, if no table was left over from an earlier flush.
  swap-get : (k : Key) → get z (swap e) k ≡ get z e k
  unfolding newest or_else find
  swap-get k =
      get-answer z (swap e) [] memory tables k swap-Stores
      ∙ sym (get-answer z e memory [] tables k st)

  module _ (path : ℕ) (fresh : All (λ p. (p == path) ≡ false) e.tables) (fits : Fits memory) where
    flush_full :
        (e.memtable.size == 0) ≡ false
        → (flush e path written).0 ≡ (write_table (swap e) path written (some e.memtable)).0
    unfolding flush swap
    flush_full full = rw full

    written-Stores :
        Stores (write_table (swap e) path written (some e.memtable)).0 [] [] (memory ∷ tables)
    unfolding write_table swap
    written-Stores = record {
      in_memory = Represents-new;
      in_pending = refl;
      on_disk = (
        (
          fits,
          Represents-IsOrdered e.memtable memory st.in_memory,
          set_file-build e.disk path e.memtable memory st.in_memory,
        ),
        TablesHold-set_file e.disk path (some (build (Skiplist.all e.memtable))) e.tables tables
            fresh st.on_disk,
      );
    }

    -- On an engine of well-formed memtables and tables a flush that succeeds loses nothing: every
    -- read answers what it answered before, if the path is not in use, the sizes of the table fit
    -- its fields, and no table was left over from an earlier flush.
    pub flush-get : (k : Key) → get z (flush e path written).0 k ≡ get z e k
    unfolding flush newest or_else find
    flush-get k = elim (Bool-cases (e.memtable.size == 0)) [
      | inl empty ↦ rw empty
      | inr full ↦
          ap (λ x. get z x k) (flush_full full)
          ∙ get-answer z (write_table (swap e) path written (some e.memtable)).0 [] []
              (memory ∷ tables) k written-Stores
          ∙ sym (get-answer z e memory [] tables k st)
    ]
