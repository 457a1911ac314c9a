-- ===== src/Engine/Snapshot.antt =====
-- internal/storage/engine.go: a snapshot of one engine, restored on another.
use on_cloud_kv.Prelude.{
  ℕ, suc, ◌≡◌, refl, sym, ap, ◌∙◌, Bool, Option, none, some, List, [], ◌∷◌, arith, Bool-cases, inl,
  inr,
}
use on_cloud_kv.Keys.{Key, key_ltb, key_eqb, key_eqb_iff}
use on_cloud_kv.Entry.{Entry}
use on_cloud_kv.Entries.{find, upsert, find-upsert, from}
use on_cloud_kv.Entries.Maps.{or_else, or_else-none, Distinct}
use on_cloud_kv.Bloom.{Sizing}
use on_cloud_kv.Skiplist
use on_cloud_kv.Skiplist.{Skiplist}
use on_cloud_kv.Skiplist.Invariant.{Represents}
use on_cloud_kv.Skiplist.Refine.{live, put-Represents}
use on_cloud_kv.Sstable.Reader.{ok}
use on_cloud_kv.Engine.{Engine, add_entries, alive, snapshot, put_all}
use on_cloud_kv.Engine.Reads.{Stores, newest}
use on_cloud_kv.Engine.View.{seen}
use on_cloud_kv.Engine.Seen.{AllLive, add_entries-find, alive-find, alive-Distinct}
use on_cloud_kv.Engine.Scan.{scan-scanned}

from-all : (es : List Entry) → from [] es ≡ es
unfolding from key_ltb
from-all [] = refl
from-all (x ∷ xs) = refl

-- What the memtable of a restored engine holds.
abbrev pub restored : List Entry → List Entry → List Entry
restored held [] = held
restored held (e ∷ es) = restored (upsert (live e.key e.value e.version) held) es

pub put_all-Represents :
    (draws : ℕ → List Bool) (n : ℕ) (m : Skiplist) (held es : List Entry)
    → Represents m held
    → Represents (put_all draws n m es) (restored held es)
unfolding put_all
put_all-Represents draws n m held [] r = r
put_all-Represents draws n m held (e ∷ es) r =
    put_all-Represents draws (suc n) (Skiplist.put m (draws n) e.key e.value e.version)
      (upsert (live e.key e.value e.version) held) es
      (put-Represents m held e.key r (draws n) e.value e.version)

pub restored-find :
    (k : Key) (held es : List Entry)
    → Distinct es
    → AllLive es
    → find k (restored held es) ≡ or_else (find k es) (find k held)
unfolding find or_else
restored-find k held [] d l = refl
restored-find k held (e ∷ es) d l =
    restored-find k (upsert (live e.key e.value e.version) held) es d.1 l.1
    ∙ rw find-upsert (elim (Bool-cases (key_eqb e.key k)) [
      | inl same ↦
          let gone : find k es ≡ none = rw ((key_eqb_iff e.key k).0 same) at d.0 in
          rw (same, gone, l.0) refl
      | inr other ↦ rw other refl
    ])

-- The live entries of an engine with no tables on disk.
abbrev pub live_entries : List Entry → List Entry → List Entry
live_entries memory pending = alive (add_entries (add_entries [] memory) pending)

pub snapshot-live_entries :
    {Log : Type 0} (z : Sizing) (e : Engine Log) (memory pending : List Entry)
    → Stores e memory pending []
    → snapshot z e ≡ ok (live_entries memory pending)
unfolding snapshot
snapshot-live_entries z e memory pending st =
    scan-scanned z e memory pending [] st ∙ rw (from-all memory, from-all pending) refl

pub seen_idem : (o : Option Entry) → seen (seen o) ≡ seen o
unfolding seen
seen_idem none = refl
seen_idem (some e) = ground arith

pub live_entries-find :
    (k : Key) (memory pending : List Entry)
    → (find k (live_entries memory pending) ≡ seen (newest k (memory ∷ pending ∷ [])))
      × Distinct (live_entries memory pending)
      × AllLive (live_entries memory pending)
unfolding newest find or_else
live_entries-find k memory pending =
    let (f, d) = add_entries-find k [] memory tt in
    let (g, d1) = add_entries-find k (add_entries [] memory) pending d in
    let (d2, l) = alive-Distinct (add_entries (add_entries [] memory) pending) d1 in
    (
      alive-find k (add_entries (add_entries [] memory) pending) d1
          ∙ ap seen (g ∙ rw f (ap (or_else (find k memory)) (sym (or_else-none (find k pending))))),
      d2,
      l,
    )
