-- ===== src/Fsm/Restore.antt =====
-- internal/consensus/fsm.go and snapshot.go: a state machine that is restored from another's snapshot.
use on_cloud_kv.Prelude.{ℕ, ◌≡◌, refl, sym, ap, ◌∙◌, Bool, Option, none, some, List, [], ◌∷◌}
use mathlib.Core.List.{Permᴰ}
use on_cloud_kv.Bytes.{Bytes}
use on_cloud_kv.Keys.{Key}
use on_cloud_kv.Entry.{Entry}
use on_cloud_kv.Entries.{find}
use on_cloud_kv.Entries.Maps.{or_else, or_else-none, find-Permᴰ}
use on_cloud_kv.Bloom.{Sizing}
use on_cloud_kv.Skiplist
use on_cloud_kv.Skiplist.Invariant.{Represents-new}
use on_cloud_kv.Sstable.Reader.{ok}
use on_cloud_kv.Engine
use on_cloud_kv.Engine.{Engine, answer, get}
use on_cloud_kv.Engine.Reads.{Stores, newest, get-answer}
use on_cloud_kv.Engine.View.{seen, visible, visible-answer}
use on_cloud_kv.Engine.Snapshot.{
  restored, put_all-Represents, restored-find, live_entries, snapshot-live_entries,
  live_entries-find, seen_idem,
}
use on_cloud_kv.Engine.Seen.{AllLive}
use on_cloud_kv.Fsm.{Fsm, snapshot, restore, restore_entries}

-- However a map is walked, its entries are live if they were.
All-Permᴰ : {xs ys : List Entry} → Permᴰ xs ys → AllLive xs → AllLive ys
All-Permᴰ Permᴰ.nil l = tt
All-Permᴰ (Permᴰ.cons same p) l = (rw (← same) l.0, All-Permᴰ p l.1)
All-Permᴰ (Permᴰ.swap e f) l = (rw (← f) l.1.0, (rw (← e) l.0, l.1.1))
All-Permᴰ (Permᴰ.trans p q) l = All-Permᴰ q (All-Permᴰ p l)

restored-Stores :
    {Log : Type 0} (draws : ℕ → List Bool) (g : Engine Log) (walked : List Entry)
    → g.immutable ≡ none
    → g.tables ≡ []
    → Stores (Engine.restore draws g walked) (restored [] walked) [] []
unfolding Engine.restore
restored-Stores draws g walked idle no_tables = record {
  in_memory = put_all-Represents draws 0 Skiplist.new [] walked Represents-new;
  in_pending = rw idle refl;
  on_disk = rw no_tables tt;
}

restored-newest :
    (k : Key) (memory pending walked : List Entry)
    → Permᴰ (live_entries memory pending) walked
    → seen (newest k (restored [] walked ∷ [] ∷ [])) ≡ seen (newest k (memory ∷ pending ∷ []))
unfolding newest find or_else
restored-newest k memory pending walked p =
    let (found, distinct, all_live) = live_entries-find k memory pending in
    let (same, distinct_walked) = find-Permᴰ k p distinct in
    ap seen (
      or_else-none (find k (restored [] walked))
      ∙ restored-find k [] walked distinct_walked (All-Permᴰ p all_live)
      ∙ or_else-none (find k walked)
      ∙ sym same
      ∙ found)
    ∙ seen_idem (newest k (memory ∷ pending ∷ []))

-- A machine whose engine has no tables on disk answers a snapshot with its live entries. Another machine,
-- with no table to flush and none on disk, that restores them from bytes that decode to these entries, in
-- any order, shows under every key what the first one shows, whatever levels its memtable draws.
pub snapshot-restore :
    {Log : Type 0} (z : Sizing) (decode : Bytes → Option (List Entry)) (draws : ℕ → List Bool)
    (f g : Fsm Log) (memory pending walked : List Entry) (snapshot_data : Bytes) (k : Key)
    → Stores f.store memory pending []
    → g.store.immutable ≡ none
    → g.store.tables ≡ []
    → Permᴰ (live_entries memory pending) walked
    → decode snapshot_data ≡ some walked
    → (snapshot z f ≡ ok (live_entries memory pending))
      × ((a : Entry × Bool) × (b : Entry × Bool) × (get z f.store k ≡ ok a)
          × (get z (restore decode draws g snapshot_data).0.store k ≡ ok b)
          × (visible b ≡ visible a))
unfolding snapshot restore restore_entries
snapshot-restore z decode draws f g memory pending walked snapshot_data k st idle no_tables p
      decoded =
    let st1 = restored-Stores draws g.store walked idle no_tables in
    let a = newest k (memory ∷ pending ∷ []) in
    let b = newest k (restored [] walked ∷ [] ∷ []) in
    (
      snapshot-live_entries z f.store memory pending st,
      (
        answer a,
        answer b,
        get-answer z f.store memory pending [] k st,
        rw decoded
            (get-answer z (Engine.restore draws g.store walked) (restored [] walked) [] [] k st1),
        visible-answer b ∙ restored-newest k memory pending walked p ∙ sym (visible-answer a),
      ),
    )
