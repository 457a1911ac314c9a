-- ===== src/Engine/Scan.antt =====
-- internal/storage/engine.go: what `Scan` returns against what `Get` answers.
use on_cloud_kv.Prelude.{
  ℕ, ◌≡◌, refl, sym, ap, ◌∙◌, Bool, true, false, Option, none, some, List, [], ◌∷◌, arith, All,
  if◌then◌else◌, Bool-cases, inl, inr,
}
use on_cloud_kv.Keys.{Key, key_ltb, key_eqb_iff, key_lt_trans}
use on_cloud_kv.Entry.{Entry}
use on_cloud_kv.Entries.{find, from, IsOrdered}
use on_cloud_kv.Entries.Maps.{or_else, or_else-none, Distinct}
use on_cloud_kv.Bloom.{Sizing}
use on_cloud_kv.Skiplist
use on_cloud_kv.Skiplist.{Skiplist}
use on_cloud_kv.Skiplist.Invariant.{Represents}
use on_cloud_kv.Skiplist.Range.{scan-range}
use on_cloud_kv.Sstable.Reader.{ok}
use on_cloud_kv.Engine.{
  Engine, Disk, answer, get, add_entries, scan_tables, scan_immutable, alive, scan_results, scan,
}
use on_cloud_kv.Engine.Reads.{Stores, ImmutableHolds, TablesHold, newest, get-answer}
use on_cloud_kv.Engine.Flush.{Represents-IsOrdered}
use on_cloud_kv.Engine.View.{seen, visible, visible-answer}
use on_cloud_kv.Engine.Seen.{add_entries-find, alive-find, alive-Distinct}

-- No entry of an ordered list has a key below the first.
find-below :
    (k start : Key) (es : List Entry)
    → key_ltb k start ≡ true
    → All (λ (y : Entry). key_ltb y.key start ≡ false) es
    → find k es ≡ none
unfolding find
find-below k start [] below h = refl
find-below k start (x ∷ xs) below h =
    ground (arith, find-below k start xs below h.1, key_eqb_iff x.key k, h.0)

above_first :
    (start a : Key) (es : List Entry)
    → key_ltb a start ≡ false
    → All (λ (y : Entry). key_ltb a y.key ≡ true) es
    → All (λ (y : Entry). key_ltb y.key start ≡ false) es
above_first start a [] h o = tt
above_first start a (x ∷ xs) h o =
    (ground (arith, key_lt_trans a x.key start, o.0), above_first start a xs h o.1)

find-from :
    (k start : Key) (es : List Entry)
    → IsOrdered es
    → find k (from start es) ≡ (if key_ltb k start then none else find k es)
unfolding find from
find-from k start [] o = ground arith
find-from k start (x ∷ xs) o = elim (Bool-cases (key_ltb x.key start)) [
  | inl low ↦ rw low (ground (arith, low, find-from k start xs o.1, key_eqb_iff x.key k))
  | inr high ↦ rw high (elim (Bool-cases (key_ltb k start)) [
    | inl below ↦
        rw below (find-below k start (x ∷ xs) below (high, above_first start x.key xs high o.0))
    | inr reached ↦ rw reached
  ])
]

-- What a scan without a limit returns, where no table is on disk.
abbrev pub scanned : Key → List Entry → List Entry → List Entry
scanned start memory pending =
    alive (add_entries (add_entries [] (from start memory)) (from start pending))

no_paths : (disk : Disk) (paths : List ℕ) → TablesHold disk paths [] → paths ≡ []
no_paths disk [] h = refl
no_paths disk (path ∷ paths) h = absurd h

scan_memtable-from :
    (m : Skiplist) (es : List Entry) (start : Key)
    → Represents m es
    → Skiplist.scan m start [] 0 ≡ from start es
scan_memtable-from m es start r = scan-range m es r start [] 0

scan_immutable-from :
    (o : Option Skiplist) (es : List Entry) (start : Key)
    → ImmutableHolds o es
    → scan_immutable start 0 o ≡ from start es
unfolding scan_immutable from
scan_immutable-from none es start h = rw h refl
scan_immutable-from (some m) es start h = scan_memtable-from m es start h

pub scan-scanned :
    {Log : Type 0} (z : Sizing) (e : Engine Log) (memory pending : List Entry) (start : Key)
    → Stores e memory pending []
    → scan z e start 0 ≡ ok (scanned start memory pending)
unfolding scan scan_tables scan_results
scan-scanned z e memory pending start st =
    rw
      (
        no_paths e.disk e.tables st.on_disk,
        scan_memtable-from e.memtable memory start st.in_memory,
        scan_immutable-from e.immutable pending start st.in_pending,
      )
      refl

pending-IsOrdered : (o : Option Skiplist) (es : List Entry) → ImmutableHolds o es → IsOrdered es
pending-IsOrdered none es h = rw h tt
pending-IsOrdered (some m) es h = Represents-IsOrdered m es h

seen_from :
    (below : Bool) (a b : Option Entry)
    → seen (or_else (if below then none else a) (if below then none else b))
      ≡ (if below then none else seen (or_else a (or_else b none)))
unfolding seen or_else
seen_from true a b = refl
seen_from false none b = ap seen (sym (or_else-none b))
seen_from false (some e) b = refl

scanned-find :
    (k start : Key) (memory pending : List Entry)
    → IsOrdered memory
    → IsOrdered pending
    → (find k (scanned start memory pending)
        ≡ (if key_ltb k start then none else seen (newest k (memory ∷ pending ∷ []))))
      × Distinct (scanned start memory pending)
unfolding newest find or_else seen
scanned-find k start memory pending o o' =
    let (f, d) = add_entries-find k [] (from start memory) tt in
    let (g, d1) = add_entries-find k (add_entries [] (from start memory)) (from start pending) d in
    let merged : find k (add_entries (add_entries [] (from start memory)) (from start pending))
        ≡ or_else (if key_ltb k start then none else find k memory)
            (if key_ltb k start then none else find k pending) =
      g ∙ rw (f, find-from k start memory o, find-from k start pending o') refl in
    let map_ = add_entries (add_entries [] (from start memory)) (from start pending) in
    (
      alive-find k map_ d1
          ∙ ap seen merged
          ∙ seen_from (key_ltb k start) (find k memory) (find k pending),
      (alive-Distinct map_ d1).0,
    )

-- A scan without a limit, of an engine that has no table on disk, returns at most one entry of a key: for each
-- key from the start on the entry that `Get` shows, and none of a key that `Get` does not show; and none of
-- a key before the start. The prefix that the caller passes is only the start of the range.
pub scan-get :
    {Log : Type 0} (z : Sizing) (e : Engine Log) (memory pending : List Entry) (start k : Key)
    → Stores e memory pending []
    → (es : List Entry) × (a : Entry × Bool) × (scan z e start 0 ≡ ok es)
      × (get z e k ≡ ok a)
      × Distinct es
      × (find k es ≡ (if key_ltb k start then none else visible a))
scan-get z e memory pending start k st =
    let found = newest k (memory ∷ pending ∷ []) in
    let (same, distinct) =
      scanned-find k start memory pending (Represents-IsOrdered e.memtable memory st.in_memory)
        (pending-IsOrdered e.immutable pending st.in_pending) in
    (
      scanned start memory pending,
      answer found,
      scan-scanned z e memory pending start st,
      get-answer z e memory pending [] k st,
      distinct,
      same ∙ rw (visible-answer found) refl,
    )
