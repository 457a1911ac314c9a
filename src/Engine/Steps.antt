-- ===== src/Engine/Steps.antt =====
-- internal/storage/engine.go: after any run of the engine, `Get` reads the map that it should be.
use on_cloud_kv.Prelude.{
  true, ap, take, ℕ, ◌≡◌, ◌==◌, refl, sym, ◌∙◌, Bool, false, Option, none, some, List, [], ◌∷◌,
  ◌++◌, All,
}
use mathlib.Core.Path.{subst}
use on_cloud_kv.Bytes.{Bytes}
use on_cloud_kv.Keys.{Key}
use on_cloud_kv.Entry.{Entry}
use on_cloud_kv.Entries.{find}
use on_cloud_kv.Bloom.{Sizing}
use on_cloud_kv.Skiplist
use on_cloud_kv.Skiplist.{Skiplist}
use on_cloud_kv.Skiplist.Invariant.{Represents, Represents-new}
use on_cloud_kv.Skiplist.Range.{all-entries}
use on_cloud_kv.Sstable.Reader.{ok}
use on_cloud_kv.Sstable.{build}
use on_cloud_kv.Sstable.Open.{Fits}
use on_cloud_kv.Wal.{read_all, log_bytes, record_bytes}
use on_cloud_kv.Wal.Commit.{LogFile}
use on_cloud_kv.Engine.{
  Engine, Disk, WalRecord, written, failed, close, open_engine, swap, write_table, answer, get,
}
use on_cloud_kv.Entries.Maps.{or_else}
use on_cloud_kv.Engine.Reads.{Stores, newest, get-answer}
use on_cloud_kv.Engine.Flush.{set_file-build, TablesHold-set_file, Represents-IsOrdered}
use on_cloud_kv.Engine.Reopen.{
  Durable, whole, torn, Durable-true, read_all-Durable, Durable-Reopens, Holds-record,
}
use on_cloud_kv.Engine.Recovery.{
  wal_journal, records_of, replayed, IsLoggable, perform-Holds, perform-Stores, Write, record_of,
  perform,
}
use on_cloud_kv.Engine.Replays.{
  apply_record, apply_records, apply_records-append, recover-Represents,
}
use on_cloud_kv.Engine.View.{Store, apply_write, seen, visible, visible-answer, seen_write}
use on_cloud_kv.Engine.Runs.{
  Reach, start, write, begin_flush, end_flush, fail_flush, crash, late_crash, torn_crash, shut,
}

module _ (crc : Bytes → ℕ) (lf : LogFile) (encode : WalRecord → Bytes)
    (decode : Bytes → Option WalRecord) where
  open lf use {File, IoError, accepted, durable}

  record Inv (b : Bool) (e : Engine File) (m : Store) : Type 0 where
    memory : List Entry
    pending : List Entry
    tables : List (List Entry)
    raws : List Bytes
    stores : Stores e memory pending tables
    reads : (k : Key) → seen (newest k (memory ∷ pending ∷ tables)) ≡ m k
    log : Durable crc lf encode decode b e.wal raws
    logged : (k : Key) → seen (newest k (apply_records decode [] raws ∷ [])) ≡ m k

  Inv-open :
      {b : Bool} (draws : ℕ → List Bool) (disk : Disk) (size_mb : Option ℕ) (f : File) (m : Store)
      (raws : List Bytes)
      → Durable crc lf encode decode b f raws
      → ((k : Key) → seen (newest k (apply_records decode [] raws ∷ [])) ≡ m k)
      → Inv b (open_engine (replayed crc lf encode decode) decode draws disk size_mb f) m
  unfolding replayed records_of open_engine newest find or_else
  Inv-open draws disk size_mb f m raws log logged = record {
    memory = apply_records decode [] raws;
    pending = [];
    tables = [];
    raws = raws;
    stores = record {
      in_memory =
          rw (ap records_of (read_all-Durable crc lf encode decode f raws log))
            (recover-Represents decode draws 0 Skiplist.new [] raws Represents-new);
      in_pending = refl;
      on_disk = tt;
    };
    reads = λ k. logged k;
    log = log;
    logged = logged;
  }

  -- What the log tells after one more record.
  seen_record :
      (w : Write) (raws : List Bytes) (m : Store)
      → IsLoggable crc lf encode decode w
      → ((k : Key) → seen (newest k (apply_records decode [] raws ∷ [])) ≡ m k)
      → (k : Key)
      → seen (newest k (apply_records decode [] (raws ++ encode (record_of w) ∷ []) ∷ []))
        ≡ apply_write w m k
  unfolding apply_records
  seen_record w raws m loggable logged =
      rw (apply_records-append, loggable.1)
        (seen_write w (apply_records decode [] raws) [] m logged)

  Inv-write :
      (e : Engine File) (m : Store) (draw : List Bool) (w : Write)
      → Inv true e m
      → IsLoggable crc lf encode decode w
      → (perform (wal_journal crc lf encode decode) encode e draw w).1 ≡ none
      → Inv true (perform (wal_journal crc lf encode decode) encode e draw w).0 (apply_write w m)
  unfolding apply_records
  Inv-write e m draw w inv loggable h = record {
    memory = apply_record inv.memory (some (record_of w));
    pending = inv.pending;
    tables = inv.tables;
    raws = inv.raws ++ encode (record_of w) ∷ [];
    stores =
        perform-Stores (wal_journal crc lf encode decode) encode e inv.memory inv.pending inv.tables
          draw w inv.stores h;
    reads = seen_write w inv.memory (inv.pending ∷ inv.tables) m inv.reads;
    log = whole (
        perform-Holds crc lf encode decode e inv.raws draw w
          (Durable-true crc lf encode decode e.wal inv.raws inv.log) loggable h);
    logged = seen_record w inv.raws m loggable inv.logged;
  }

  Inv-begin :
      {b : Bool} (e : Engine File) (m : Store) → Inv b e m → e.immutable ≡ none → Inv b (swap e) m
  unfolding swap newest find or_else
  Inv-begin e m inv h =
      let pending : inv.pending ≡ [] = rw h at inv.stores.in_pending in
      record {
        memory = [];
        pending = inv.memory;
        tables = inv.tables;
        raws = inv.raws;
        stores = record {
          in_memory = Represents-new;
          in_pending = inv.stores.in_memory;
          on_disk = inv.stores.on_disk;
        };
        reads = λ k. rw pending at (inv.reads k);
        log = inv.log;
        logged = inv.logged;
      }

  same_entries : (t : Skiplist) (xs ys : List Entry) → Represents t xs → Represents t ys → xs ≡ ys
  same_entries t xs ys r r' = sym (all-entries t xs r).0 ∙ (all-entries t ys r').0

  Inv-end :
      {b : Bool} (e : Engine File) (m : Store) (path : ℕ) (t : Skiplist) (es : List Entry)
      → Inv b e m
      → e.immutable ≡ some t
      → Represents t es
      → Fits es
      → All (λ p. (p == path) ≡ false) e.tables
      → Inv b (write_table e path written (some t)).0 m
  unfolding write_table newest find or_else
  Inv-end e m path t es inv there r fits fresh =
      let r' : Represents t inv.pending = rw there at inv.stores.in_pending in
      let same = same_entries t es inv.pending r r' in
      record {
        memory = inv.memory;
        pending = [];
        tables = inv.pending ∷ inv.tables;
        raws = inv.raws;
        stores = record {
          in_memory = inv.stores.in_memory;
          in_pending = refl;
          on_disk = (
            (
              subst Fits same fits,
              Represents-IsOrdered t inv.pending r',
              set_file-build e.disk path t inv.pending r',
            ),
            TablesHold-set_file e.disk path (some (build (Skiplist.all t))) e.tables inv.tables
                fresh inv.stores.on_disk,
          );
        };
        reads = inv.reads;
        log = inv.log;
        logged = inv.logged;
      }

  Inv-fail :
      {b : Bool} (e : Engine File) (m : Store) (path : ℕ) (rest : Option Bytes)
      (o : Option Skiplist)
      → Inv b e m
      → All (λ p. (p == path) ≡ false) e.tables
      → Inv b (write_table e path (failed rest) o).0 m
  unfolding write_table
  Inv-fail e m path rest none inv fresh = inv
  Inv-fail e m path rest (some t) inv fresh = record {
    memory = inv.memory;
    pending = inv.pending;
    tables = inv.tables;
    raws = inv.raws;
    stores = record {
      in_memory = inv.stores.in_memory;
      in_pending = inv.stores.in_pending;
      on_disk = TablesHold-set_file e.disk path rest e.tables inv.tables fresh inv.stores.on_disk;
    };
    reads = inv.reads;
    log = inv.log;
    logged = inv.logged;
  }

  Reach-Inv :
      {b : Bool} {e : Engine File} {m : Store} → Reach crc lf encode decode b e m → Inv b e m
  unfolding newest find or_else seen apply_records log_bytes
  Reach-Inv (start draws disk size_mb f none_written none_kept) =
      Inv-open draws disk size_mb f (λ k. none) []
        (whole (record { accepts = none_written; kept = none_kept; fit = tt })) (λ k. refl)
  Reach-Inv (write {e} {m} draw w r loggable h) = Inv-write e m draw w (Reach-Inv r) loggable h
  Reach-Inv (begin_flush {b} {e} {m} r idle) = Inv-begin e m (Reach-Inv r) idle
  Reach-Inv (end_flush {b} {e} {m} path t es r there rep fits fresh) =
      subst (λ o. Inv b (write_table e path written o).0 m) (sym there)
        (Inv-end e m path t es (Reach-Inv r) there rep fits fresh)
  Reach-Inv (fail_flush {b} {e} {m} path rest r fresh) =
      Inv-fail e m path rest e.immutable (Reach-Inv r) fresh
  Reach-Inv (shut {b} {e} {m} draws size_mb path io close_log f r kept again) =
      let inv = Reach-Inv r in
      Inv-open draws (close close_log e path io).0.disk size_mb f m inv.raws
        (Durable-Reopens crc lf encode decode e.wal f inv.raws inv.log
          (record { accepts = again.accepts ∙ kept; kept = again.kept ∙ kept }))
        inv.logged
  Reach-Inv (crash {b} {e} {m} draws size_mb f r again) =
      let inv = Reach-Inv r in
      Inv-open draws e.disk size_mb f m inv.raws
        (Durable-Reopens crc lf encode decode e.wal f inv.raws inv.log again) inv.logged
  Reach-Inv (late_crash {e} {m} draws size_mb f w r loggable accepts_ kept_) =
      let inv = Reach-Inv r in
      let d = encode (record_of w) in
      Inv-open draws e.disk size_mb f (apply_write w m) (inv.raws ++ d ∷ [])
        (whole (
          Holds-record crc lf encode decode e.wal f inv.raws d
            (Durable-true crc lf encode decode e.wal inv.raws inv.log) loggable.0 accepts_ kept_))
        (seen_record w inv.raws m loggable inv.logged)
  Reach-Inv (torn_crash {e} {m} draws size_mb f w n r loggable short left) =
      let inv = Reach-Inv r in
      let held = Durable-true crc lf encode decode e.wal inv.raws inv.log in
      let d = encode (record_of w) in
      Inv-open draws e.disk size_mb f m inv.raws
        (torn d n held.fit loggable.0 short
          (left ∙ ap (λ b. b ++ take n (record_bytes crc d)) held.kept))
        inv.logged

  -- The engine implements a map: whatever writes were answered without an error, in whatever order with
  -- the two steps of flushes, failed flushes, and crashes and closes after which the engine was opened again,
  -- `Get` shows the entry that the last write of the key left, and nothing of a deleted key or of one that
  -- was not written; and what is durable of the log can be replayed without an error. A crash within a write
  -- that was not answered leaves all of its record, and then the write counts, or a part of it, and then it
  -- does not; after such a part no more writes are made, since the code does not cut it off. The writes come
  -- one after the other, and the compactor does not run. No flush begins while the table of an earlier one is
  -- left over, the tables fit their fields, the paths are not in use, closing the log keeps what is durable,
  -- and the record of each write fits the fields of the log and decodes to what was encoded. The file keeps
  -- to the laws of `LogFile`.
  pub Reach-get :
      {b : Bool} {e : Engine File} {m : Store} (z : Sizing) (k : Key)
      → Reach crc lf encode decode b e m
      → (a : Entry × Bool) × (raws : List Bytes) × (get z e k ≡ ok a)
        × (visible a ≡ m k)
        × (read_all crc (durable e.wal) ≡ some (raws, none))
  Reach-get {b} {e} {m} z k r =
      let inv = Reach-Inv r in
      let found = newest k (inv.memory ∷ inv.pending ∷ inv.tables) in
      (
        answer found,
        inv.raws,
        get-answer z e inv.memory inv.pending inv.tables k inv.stores,
        visible-answer found ∙ inv.reads k,
        read_all-Durable crc lf encode decode e.wal inv.raws inv.log,
      )
