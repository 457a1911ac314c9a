-- ===== src/Compaction.antt =====
-- internal/storage/compaction/compaction.go: the size-tiered compactor.
-- Tables are paths (numbers), the newest first; the directory is a function of paths. The time that names
-- a merged table is the argument `out_path`. `sort.Slice` leaves the order of equal elements open: the model
-- keeps the order in which they came.
pub mod Merge
pub mod Swap
use on_cloud_kv.Prelude.{
  ℕ, ◌+◌, ◌*◌, ◌==◌, Bool, true, false, ◌&&◌, Option, none, some, List, [], ◌∷◌, ◌++◌, map, ltb,
  leb, length, if◌then◌else◌,
}
use on_cloud_kv.Bytes.{Bytes}
use on_cloud_kv.Entry.{Entry, int64_ltb}
use on_cloud_kv.Entries.{find, upsert}
use on_cloud_kv.Bloom.{Sizing}
use on_cloud_kv.Sstable.{build}
use on_cloud_kv.Sstable.Reader
use on_cloud_kv.Sstable.Reader.{Reader, Outcome, ok, err, panic, out_of_fuel, open_reader}

abbrev pub min_compact_tables : ℕ
min_compact_tables = 4

abbrev pub size_tier_factor : ℕ
size_tier_factor = 10

abbrev pub Disk : Type 0
Disk = ℕ → Option Bytes

-- The compactor's list and the directory.
pub record Compactor : Type 0 where
  pub tables : List ℕ
  pub disk : Disk

-- `Register`
unfoldable pub register : Compactor → ℕ → Compactor
register c path = record c { tables = path ∷ c.tables }

pub record SizedTable : Type 0 where
  pub path : ℕ
  pub size : ℕ

-- `os.Stat` of each table; those without a file are passed over.
unfoldable pub stat_next : ℕ → Option Bytes → List SizedTable → List SizedTable
stat_next path none rest = rest
stat_next path (some file) rest = record { path = path; size = length file } ∷ rest

unfoldable pub stat_all : Disk → List ℕ → List SizedTable
stat_all disk [] = []
stat_all disk (path ∷ paths) = stat_next path (disk path) (stat_all disk paths)

unfoldable pub insert_sized : SizedTable → List SizedTable → List SizedTable
insert_sized t [] = t ∷ []
insert_sized t (x ∷ xs) =
    let rest = insert_sized t xs in if leb t.size x.size then t ∷ x ∷ xs else x ∷ rest

unfoldable pub sort_sized : List SizedTable → List SizedTable
sort_sized [] = []
sort_sized (t ∷ ts) = insert_sized t (sort_sized ts)

-- `ratio <= sizeTierFactor` on float64, which is the same on sizes below 2 ^ 48; a quotient by 0 fails it.
unfoldable pub in_tier : ℕ → ℕ → Bool
in_tier smallest size = ltb 0 smallest && leb size (size_tier_factor * smallest)

unfoldable pub tier_rest : ℕ → List SizedTable → List ℕ
tier_rest smallest [] = []
tier_rest smallest (t ∷ ts) =
    let rest = tier_rest smallest ts in if in_tier smallest t.size then t.path ∷ rest else rest

unfoldable pub tier_of : List SizedTable → List ℕ
tier_of [] = []
tier_of (t ∷ ts) = t.path ∷ tier_rest t.size ts

-- `selectTier`
unfoldable pub select_tier : Disk → List ℕ → List ℕ
select_tier disk tables = tier_of (sort_sized (stat_all disk tables))

unfoldable pub open_next : Outcome Reader → Outcome (List Reader) → Outcome (List Reader)
open_next (ok r) (ok rs) = ok (r ∷ rs)
open_next (ok r) err = err
open_next (ok r) panic = panic
open_next (ok r) out_of_fuel = out_of_fuel
open_next err rest = err
open_next panic rest = panic
open_next out_of_fuel rest = out_of_fuel

unfoldable pub open_path : Sizing → Option Bytes → Outcome Reader
open_path z none = err
open_path z (some file) = open_reader z file

-- The first loop of `merge`: the readers, or the first failure.
unfoldable pub open_all : Sizing → Disk → List ℕ → Outcome (List Reader)
open_all z disk [] = ok []
open_all z disk (path ∷ paths) = open_next (open_path z (disk path)) (open_all z disk paths)

-- An entry of a table against the entry of its key that was seen before: the higher version stays, and
-- the one seen before at equal versions.
unfoldable pub see_over : Entry → Option Entry → Bool
see_over e none = true
see_over e (some prev) = int64_ltb prev.version e.version

-- The map `seen` is kept in the order of its keys, so that `merged` is sorted as it stands.
unfoldable pub see : List Entry → Entry → List Entry
see seen e = if see_over e (find e.key seen) then upsert e seen else seen

unfoldable pub see_all : List Entry → List Entry → List Entry
see_all seen [] = seen
see_all seen (e ∷ es) = see_all (see seen e) es

unfoldable pub scan_all : List Entry → List Reader → Outcome (List Entry)
scan_all seen [] = ok seen
scan_all seen (r ∷ rs) = elim (Reader.scan r [] 0) [
  | ok es ↦ scan_all (see_all seen es) rs
  | err ↦ err
  | panic ↦ panic
  | out_of_fuel ↦ out_of_fuel
]

-- Tombstones are not written.
unfoldable pub without_tombstones : List Entry → List Entry
without_tombstones [] = []
without_tombstones (e ∷ es) =
    let rest = without_tombstones es in if e.deleted then rest else e ∷ rest

unfoldable pub merged_file : Outcome (List Entry) → Outcome Bytes
merged_file (ok seen) = ok (build (without_tombstones seen))
merged_file err = err
merged_file panic = panic
merged_file out_of_fuel = out_of_fuel

unfoldable pub merge_opened : Outcome (List Reader) → Outcome Bytes
merge_opened (ok rs) = merged_file (scan_all [] rs)
merge_opened err = err
merge_opened panic = panic
merge_opened out_of_fuel = out_of_fuel

-- `merge`: the file that it writes, where no write fails
unfoldable pub merge : Sizing → Disk → List ℕ → Outcome Bytes
merge z disk paths = merge_opened (open_all z disk paths)

unfoldable pub is_one_of : ℕ → List ℕ → Bool
is_one_of path [] = false
is_one_of path (p ∷ ps) = let rest = is_one_of path ps in if p == path then true else rest

-- The tables that are not in the tier.
unfoldable pub kept : List ℕ → List ℕ → List ℕ
kept tier [] = []
kept tier (t ∷ ts) = let rest = kept tier ts in if is_one_of t tier then rest else t ∷ rest

unfoldable pub remove_files : List ℕ → Disk → Disk
remove_files tier disk p = if is_one_of p tier then none else disk p

-- The end of `compact`: the merged table goes to the front, and the files of the tier are removed.
unfoldable pub install : Compactor → ℕ → List ℕ → Bytes → Compactor
install c out_path tier file = record {
  tables = out_path ∷ kept tier c.tables;
  disk = remove_files tier (λ p. if p == out_path then some file else c.disk p);
}

-- What `compact` ends with; `exhausted` is a merge whose fuel was too little.
pub data Compacted : Type 0 where
  unchanged failed crashed exhausted : Compacted
  compacted : Compactor → Compacted

unfoldable pub compact_merged : Compactor → ℕ → List ℕ → Outcome Bytes → Compacted
compact_merged c out_path tier (ok file) = compacted (install c out_path tier file)
compact_merged c out_path tier err = failed
compact_merged c out_path tier panic = crashed
compact_merged c out_path tier out_of_fuel = exhausted

unfoldable pub compact_tier : Sizing → Compactor → ℕ → List ℕ → Compacted
compact_tier z c out_path tier =
    if ltb (length tier) min_compact_tables
    then unchanged
    else compact_merged c out_path tier (merge z c.disk tier)

-- `compact`, where no table is registered while it merges
unfoldable pub compact : Sizing → Compactor → ℕ → Compacted
compact z c out_path =
    if ltb (length c.tables) min_compact_tables
    then unchanged
    else compact_tier z c out_path (select_tier c.disk c.tables)
