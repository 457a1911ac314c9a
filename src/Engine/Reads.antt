-- ===== src/Engine/Reads.antt =====
-- internal/storage/engine.go: what `Get` reads, through the memtables and the tables on disk.
use on_cloud_kv.Prelude.{
  ap, ◌∙◌, Bool, true, false, if◌then◌else◌, Bool-cases, inl, inr, ℕ, ◌≡◌, refl, Option, none, some,
  List, [], ◌∷◌,
}
use on_cloud_kv.Keys.{Key}
use on_cloud_kv.Entry.{Entry}
use on_cloud_kv.Entries.{find, IsOrdered}
use on_cloud_kv.Entries.Maps.{or_else}
use on_cloud_kv.Bloom.{Sizing}
use on_cloud_kv.Skiplist.{Skiplist}
use on_cloud_kv.Skiplist.Invariant.{Represents, get-find}
use on_cloud_kv.Sstable.{build}
use on_cloud_kv.Sstable.Reader.{ok}
use on_cloud_kv.Sstable.Open.{Fits, open_reader-build}
use on_cloud_kv.Sstable.Lookup.{get-build}
use on_cloud_kv.Engine.{
  Engine, Disk, get_opened, get_file, get_next, get_tables, get_immutable, answer, answer_tables,
  get,
}

-- An absent table holds nothing.
abbrev pub ImmutableHolds : Option Skiplist → List Entry → Type 0
ImmutableHolds none es = es ≡ []
ImmutableHolds (some m) es = Represents m es

abbrev pub IsTable : Option (List ℕ) → List Entry → Type 0
IsTable file es = Fits es × IsOrdered es × (file ≡ some (build es))

-- The paths lead to tables with these entries, one after the other.
abbrev pub TablesHold : Disk → List ℕ → List (List Entry) → Type 0
TablesHold disk [] [] = Unit
TablesHold disk [] (es ∷ ess) = ⊥
TablesHold disk (path ∷ paths) [] = ⊥
TablesHold disk (path ∷ paths) (es ∷ ess) = IsTable (disk path) es × TablesHold disk paths ess

-- What an engine stores: the entries of the memtable, of the table that is being flushed, and of the
-- tables on disk, the newest first.
pub record Stores {Log : Type 0} (e : Engine Log) (memory pending : List Entry)
    (tables : List (List Entry)) : Type 0 where
  pub in_memory : Represents e.memtable memory
  pub in_pending : ImmutableHolds e.immutable pending
  pub on_disk : TablesHold e.disk e.tables tables

-- The entry of a key in the first list that has one.
unfoldable pub newest : Key → List (List Entry) → Option Entry
newest k [] = none
newest k (es ∷ ess) = or_else (find k es) (newest k ess)

get_next_lem : (a b : Option Entry) → get_next (ok a) (ok b) ≡ ok (or_else a b)
unfolding get_next or_else
get_next_lem none b = refl
get_next_lem (some e) b = refl

get_file_lem :
    (z : Sizing) (k : Key) (file : Option (List ℕ)) (es : List Entry)
    → IsTable file es
    → get_file z k file ≡ ok (find k es)
unfolding get_file get_opened
get_file_lem z k file es (fits, ordered, there) =
    rw (there, open_reader-build z es fits) (get-build z es fits ordered k)

get_tables_lem :
    (z : Sizing) (disk : Disk) (k : Key) (paths : List ℕ) (ess : List (List Entry))
    → TablesHold disk paths ess
    → get_tables z disk k paths ≡ ok (newest k ess)
unfolding get_tables newest
get_tables_lem z disk k [] [] h = refl
get_tables_lem z disk k [] (es ∷ ess) h = absurd h
get_tables_lem z disk k (path ∷ paths) [] h = absurd h
get_tables_lem z disk k (path ∷ paths) (es ∷ ess) h =
    rw (get_file_lem z k (disk path) es h.0, get_tables_lem z disk k paths ess h.1)
      (get_next_lem (find k es) (newest k ess))

get_immutable_lem :
    (k : Key) (m : Option Skiplist) (es : List Entry)
    → ImmutableHolds m es
    → get_immutable k m ≡ find k es
unfolding get_immutable find
get_immutable_lem k none es h = rw h
get_immutable_lem k (some m) es h = get-find m es k h

pub get-answer :
    {Log : Type 0} (z : Sizing) (e : Engine Log) (memory pending : List Entry)
    (tables : List (List Entry)) (k : Key)
    → Stores e memory pending tables
    → get z e k ≡ ok (answer (newest k (memory ∷ pending ∷ tables)))
unfolding get newest answer_tables
get-answer z e memory pending tables k st = rw (
  get-find e.memtable memory k st.in_memory,
  get_immutable_lem k e.immutable pending st.in_pending,
  get_tables_lem z e.disk k e.tables tables st.on_disk,
  get_next_lem (find k pending) (newest k tables),
  get_next_lem (find k memory) (or_else (find k pending) (newest k tables)),
)

-- What is to be handed back of an entry that is there or not.
abbrev pub handed_back : Option Entry → Entry × Bool
handed_back none = (record { key = []; value = []; version = 0; deleted = false }, false)
handed_back (some e) = if e.deleted then (e, false) else (e, true)

answer-handed_back : (o : Option Entry) → answer o ≡ handed_back o
unfolding answer
answer-handed_back none = refl
answer-handed_back (some e) = elim (Bool-cases e.deleted) [
  | inl dead ↦ rw dead
  | inr live_ ↦ rw live_
]

-- On an engine of well-formed memtables and of tables that were written in the order of their keys
-- and fit their fields, `Get` answers with the newest entry of a key: that of the memtable, or else
-- of the table that is being flushed, or else of the first table on disk that has one. A tombstone
-- is handed back as not found, any other entry as found, and where there is none the zero entry as
-- not found.
pub get-newest :
    {Log : Type 0} (z : Sizing) (e : Engine Log) (memory pending : List Entry)
    (tables : List (List Entry)) (k : Key)
    → Stores e memory pending tables
    → get z e k ≡ ok (handed_back (newest k (memory ∷ pending ∷ tables)))
get-newest z e memory pending tables k st =
    get-answer z e memory pending tables k st
    ∙ ap (λ a. ok a) (answer-handed_back (newest k (memory ∷ pending ∷ tables)))
