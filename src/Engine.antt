-- ===== src/Engine.antt =====
-- internal/storage/engine.go: the storage engine over a memtable, a table directory and a journal.
-- A path is a number and the directory a function of paths. The journal is the client's side of the WAL:
-- `Append` and the answer that the group commit gives it. The skip list's draws are arguments.
pub mod Reads
pub mod Writes
pub mod Flush
pub mod Replays
pub mod Recovery
pub mod Reopen
pub mod View
pub mod Runs
pub mod Steps
pub mod Total
pub mod Seen
pub mod Scan
pub mod Snapshot
use on_cloud_kv.Prelude.{
  ℕ, suc, ◌+◌, ◌*◌, ◌^◌, ◌≡◌, ◌==◌, Bool, true, false, not, Option, none, some, List, [], ◌∷◌, ◌++◌,
  leb, if◌then◌else◌,
}
use on_cloud_kv.Bytes.{Bytes}
use on_cloud_kv.Keys.{Key}
use on_cloud_kv.Entry.{Entry, empty_entry}
use on_cloud_kv.Entries.{find}
use on_cloud_kv.Bloom.{Sizing}
use on_cloud_kv.Skiplist
use on_cloud_kv.Skiplist.{Skiplist}
use on_cloud_kv.Sstable.{build}
use on_cloud_kv.Sstable.Reader
use on_cloud_kv.Sstable.Reader.{Outcome, ok, err, panic, out_of_fuel, open_reader}

-- The calls that the engine makes of its log; `Engine.Recovery` fills them with the log of the package wal.
pub record Journal : Type 1 where
  pub Log : Type 0
  pub IoError : Type 0
  pub append : Log → Bytes → Log × Option IoError

pub data Op : Type 0 where
  op_put op_delete op_other : Op

pub record WalRecord : Type 0 where
  pub op : Op
  pub key : Key
  pub value : Bytes
  pub version : ℕ

abbrev pub Disk : Type 0
Disk = ℕ → Option Bytes

-- `tables` are the paths that the compactor knows, the newest first, and `flush_ch` tells whether the
-- channel of one place is full.
pub record Engine (Log : Type 0) : Type 0 where
  pub memtable : Skiplist
  pub immutable : Option Skiplist
  pub wal : Log
  pub tables : List ℕ
  pub disk : Disk
  pub max_mem : ℕ
  pub flush_ch : Bool

-- `recover`, from the records that were read back: one that does not decode is passed over. `draws n`
-- are the draws of the record `n`.
unfoldable pub replay_record : Skiplist → List Bool → Option WalRecord → Skiplist
replay_record m draw none = m
replay_record m draw (some rec) = elim rec.op [
  | op_put ↦ Skiplist.put m draw rec.key rec.value rec.version
  | op_delete ↦ Skiplist.delete m draw rec.key rec.version
  | op_other ↦ m
]

unfoldable pub recover :
    (Bytes → Option WalRecord) → (ℕ → List Bool) → ℕ → Skiplist → List Bytes → Skiplist
recover decode draws n m [] = m
recover decode draws n m (raw ∷ records) =
    recover decode draws (suc n) (replay_record m (draws n) (decode raw)) records

-- The memtable's limit that `Open` sets: 64 MiB where the configured number is not positive; `size_mb` is
-- none for such a number.
unfoldable pub memtable_limit : Option ℕ → ℕ
memtable_limit none = 64 * 2 ^ 20
memtable_limit (some size_mb) = size_mb * 2 ^ 20

-- `Open`, once the directory and the log are open: what is on the disk is not looked at, so that no
-- table is known.
unfoldable pub open_engine :
    {Log : Type 0}
    → (Log → List Bytes)
    → (Bytes → Option WalRecord)
    → (ℕ → List Bool)
    → Disk
    → Option ℕ
    → Log
    → Engine Log
open_engine records decode draws disk size_mb l = record {
  memtable = recover decode draws 0 Skiplist.new (records l);
  immutable = none;
  wal = l;
  tables = [];
  disk = disk;
  max_mem = memtable_limit size_mb;
  flush_ch = false;
}

-- The sends on the flush channel never block.
unfoldable pub request_flush : {Log : Type 0} → Engine Log → Engine Log
request_flush e = if leb e.max_mem e.memtable.mem_size then record e { flush_ch = true } else e

module _ (j : Journal) (encode : WalRecord → Bytes) where
  open j use {Log, IoError, append}

  unfoldable pub put_answered :
      Engine Log → List Bool → Key → Bytes → ℕ → Log × Option IoError → Engine Log × Option IoError
  put_answered e draw k v version (l, some io) = (record e { wal = l }, some io)
  put_answered e draw k v version (l, none) = (
    request_flush (record e { wal = l; memtable = Skiplist.put e.memtable draw k v version }),
    none,
  )

  -- `Put`
  unfoldable pub put : Engine Log → List Bool → Key → Bytes → ℕ → Engine Log × Option IoError
  unfolding put_answered
  put e draw k v version =
      put_answered e draw k v version
        (append e.wal (encode (record { op = op_put; key = k; value = v; version = version })))

  unfoldable pub delete_answered :
      Engine Log → List Bool → Key → ℕ → Log × Option IoError → Engine Log × Option IoError
  delete_answered e draw k version (l, some io) = (record e { wal = l }, some io)
  delete_answered e draw k version (l, none) =
      (record e { wal = l; memtable = Skiplist.delete e.memtable draw k version }, none)

  -- `Delete`
  unfoldable pub delete : Engine Log → List Bool → Key → ℕ → Engine Log × Option IoError
  unfolding delete_answered
  delete e draw k version =
      delete_answered e draw k version
        (append e.wal (encode (record { op = op_delete; key = k; value = []; version = version })))

unfoldable pub get_opened : Key → Outcome Reader.Reader → Outcome (Option Entry)
get_opened k (ok r) = Reader.get r k
get_opened k err = err
get_opened k panic = panic
get_opened k out_of_fuel = out_of_fuel

unfoldable pub get_file : Sizing → Key → Option Bytes → Outcome (Option Entry)
get_file z k none = err
get_file z k (some file) = get_opened k (open_reader z file)

-- `continue` on an error or a miss
unfoldable pub get_next : Outcome (Option Entry) → Outcome (Option Entry) → Outcome (Option Entry)
get_next (ok (some e)) rest = ok (some e)
get_next (ok none) rest = rest
get_next err rest = rest
get_next panic rest = panic
get_next out_of_fuel rest = out_of_fuel

unfoldable pub get_tables : Sizing → Disk → Key → List ℕ → Outcome (Option Entry)
get_tables z disk k [] = ok none
get_tables z disk k (path ∷ paths) = get_next (get_file z k (disk path)) (get_tables z disk k paths)

unfoldable pub get_immutable : Key → Option Skiplist → Option Entry
get_immutable k none = none
get_immutable k (some m) = Skiplist.get m k

unfoldable pub answer : Option Entry → Entry × Bool
answer none = (empty_entry, false)
answer (some e) = (e, not e.deleted)

unfoldable pub answer_tables : Outcome (Option Entry) → Outcome (Entry × Bool)
unfolding answer
answer_tables (ok o) = ok (answer o)
answer_tables err = err
answer_tables panic = panic
answer_tables out_of_fuel = out_of_fuel

-- `Get`: the memtable, then the table that is being flushed, then the tables on disk.
unfoldable pub get : {Log : Type 0} → Sizing → Engine Log → Key → Outcome (Entry × Bool)
get z e k = answer_tables (
    get_next (ok (Skiplist.get e.memtable k))
      (get_next (ok (get_immutable k e.immutable)) (get_tables z e.disk k e.tables)))

-- `addEntries`: the first entry of a key stays.
unfoldable pub add_entry : List Entry → Entry → List Entry
add_entry seen e = elim (find e.key seen) [ none ↦ seen ++ e ∷ [] | some _ ↦ seen ]

unfoldable pub add_entries : List Entry → List Entry → List Entry
add_entries seen [] = seen
add_entries seen (e ∷ es) = add_entries (add_entry seen e) es

unfoldable pub scan_opened : Key → ℕ → Outcome Reader.Reader → Outcome (List Entry)
scan_opened start limit (ok r) = Reader.scan r start limit
scan_opened start limit err = err
scan_opened start limit panic = panic
scan_opened start limit out_of_fuel = out_of_fuel

unfoldable pub scan_file : Sizing → Key → ℕ → Option Bytes → Outcome (List Entry)
scan_file z start limit none = err
scan_file z start limit (some file) = scan_opened start limit (open_reader z file)

unfoldable pub scan_tables : Sizing → Disk → Key → ℕ → List Entry → List ℕ → Outcome (List Entry)
scan_tables z disk start limit seen [] = ok seen
scan_tables z disk start limit seen (path ∷ paths) = elim (scan_file z start limit (disk path)) [
  | ok es ↦ scan_tables z disk start limit (add_entries seen es) paths
  | err ↦ scan_tables z disk start limit seen paths
  | panic ↦ panic
  | out_of_fuel ↦ out_of_fuel
]

unfoldable pub scan_immutable : Key → ℕ → Option Skiplist → List Entry
scan_immutable start limit none = []
scan_immutable start limit (some m) = Skiplist.scan m start [] limit

unfoldable pub alive : List Entry → List Entry
alive [] = []
alive (e ∷ es) = let rest = alive es in if e.deleted then rest else e ∷ rest

unfoldable pub scan_results : Outcome (List Entry) → Outcome (List Entry)
scan_results (ok seen) = ok (alive seen)
scan_results err = err
scan_results panic = panic
scan_results out_of_fuel = out_of_fuel

-- `Scan`. The order in which Go walks the map `seen` is not fixed: the list stands for its elements.
unfoldable pub scan : {Log : Type 0} → Sizing → Engine Log → Key → ℕ → Outcome (List Entry)
scan z e start limit = scan_results (
    scan_tables z e.disk start limit
      (add_entries (add_entries [] (Skiplist.scan e.memtable start [] limit))
        (scan_immutable start limit e.immutable))
      e.tables)

-- `Snapshot`
unfoldable pub snapshot : {Log : Type 0} → Sizing → Engine Log → Outcome (List Entry)
snapshot z e = scan z e [] 0

unfoldable pub put_all : (ℕ → List Bool) → ℕ → Skiplist → List Entry → Skiplist
put_all draws n m [] = m
put_all draws n m (e ∷ es) =
    put_all draws (suc n) (Skiplist.put m (draws n) e.key e.value e.version) es

-- `Restore`
unfoldable pub restore : {Log : Type 0} → (ℕ → List Bool) → Engine Log → List Entry → Engine Log
restore draws e es = record e { memtable = put_all draws 0 Skiplist.new es }

-- `flush` up to the first unlock; nothing is done on an empty memtable.
unfoldable pub swap : {Log : Type 0} → Engine Log → Engine Log
swap e = record e { immutable = some e.memtable; memtable = Skiplist.new }

-- What becomes of the table file: it is created, written and closed without an error; or some step
-- fails, after which the path holds no file or what was written so far.
pub data TableIo : Type 0 where
  written : TableIo
  failed : Option Bytes → TableIo

unfoldable pub set_file : Disk → ℕ → Option Bytes → Disk
set_file disk path file p = if p == path then file else disk p

-- `flush` from there on: it writes the immutable table, registers the path, and drops the table.
unfoldable pub write_table :
    {Log : Type 0} → Engine Log → ℕ → TableIo → Option Skiplist → Engine Log × Bool
write_table e path io none = (e, true)
write_table e path (failed rest) (some m) = (record e { disk = set_file e.disk path rest }, false)
write_table e path written (some m) = (
  record e {
    disk = set_file e.disk path (some (build (Skiplist.all m)));
    tables = path ∷ e.tables;
    immutable = none;
  },
  true,
)

-- `flush`, and whether it had no error
unfoldable pub flush : {Log : Type 0} → Engine Log → ℕ → TableIo → Engine Log × Bool
flush e path io =
    if e.memtable.size == 0 then (e, true) else write_table (swap e) path io (swap e).immutable

-- What the loop of the flushes waits for, with the path and the outcome of the flush that follows.
pub data FlushSignal : Type 0 where
  requested stopped : ℕ → TableIo → FlushSignal

-- `flushLoop`: an error of a flush is only logged.
unfoldable pub flush_loop : {Log : Type 0} → Engine Log → List FlushSignal → Engine Log
flush_loop e [] = e
flush_loop e (requested path io ∷ signals) =
    flush_loop (flush (record e { flush_ch = false }) path io).0 signals
flush_loop e (stopped path io ∷ signals) = (flush e path io).0

-- `Close`: the flush loop ends with its last flush, then the log is closed.
unfoldable pub close :
    {Log IoError : Type 0}
    → (Log → Log × Option IoError)
    → Engine Log
    → ℕ
    → TableIo
    → Engine Log × Option IoError
close close_log e path io =
    let e1 = flush_loop e (stopped path io ∷ []) in
    let (l, failure) = close_log e1.wal in (record e1 { wal = l }, failure)
