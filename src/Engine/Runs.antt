-- ===== src/Engine/Runs.antt =====
-- internal/storage/engine.go: the runs of the engine, of writes, flushes, crashes and closes in any order.
-- A flush is two steps with other steps between them (`swap`, then `write_table`). A crash keeps what is
-- durable of the log, and the directory, and `open_engine` follows it.
use on_cloud_kv.Prelude.{
  ◌<◌, true, length, take, ℕ, ◌≡◌, ◌==◌, Bool, false, Option, none, some, List, [], ◌++◌, All,
}
use on_cloud_kv.Bytes.{Bytes}
use on_cloud_kv.Entry.{Entry}
use on_cloud_kv.Skiplist.{Skiplist}
use on_cloud_kv.Skiplist.Invariant.{Represents}
use on_cloud_kv.Sstable.Open.{Fits}
use on_cloud_kv.Wal.{record_bytes}
use on_cloud_kv.Wal.Commit.{LogFile}
use on_cloud_kv.Engine.{
  Engine, Disk, WalRecord, TableIo, written, failed, close, open_engine, swap, write_table,
}
use on_cloud_kv.Engine.Reopen.{Reopens}
use on_cloud_kv.Engine.Recovery.{wal_journal, replayed, IsLoggable, Write, record_of, perform}
use on_cloud_kv.Engine.View.{Store, apply_write}

module _ (crc : Bytes → ℕ) (lf : LogFile) (encode : WalRecord → Bytes)
    (decode : Bytes → Option WalRecord) where
  open lf use {File, IoError, accepted, durable}

  -- The engines that come about, with the map that each should be, and whether the log is whole: a record
  -- that a crash tore stays at its end.
  pub data Reach : Bool → Engine File → Store → Type 0 where
    -- a new engine, on an empty log
    start :
        (draws : ℕ → List Bool) (disk : Disk) (size_mb : Option ℕ) (f : File)
        → accepted f ≡ []
        → durable f ≡ []
        → Reach true
            (open_engine (replayed crc lf encode decode) decode draws disk size_mb f)
            (λ k. none)
    -- a write that is answered without an error, on a whole log
    write :
        {e : Engine File} {m : Store} (draw : List Bool) (w : Write)
        → Reach true e m
        → IsLoggable crc lf encode decode w
        → (perform (wal_journal crc lf encode decode) encode e draw w).1 ≡ none
        → Reach true
            (perform (wal_journal crc lf encode decode) encode e draw w).0
            (apply_write w m)
    -- a flush begins, where no earlier one has failed
    begin_flush :
        {b : Bool} {e : Engine File} {m : Store}
        → Reach b e m
        → e.immutable ≡ none
        → Reach b (swap e) m
    -- it ends, at a path that is not in use, with a table that fits its fields
    end_flush :
        {b : Bool} {e : Engine File} {m : Store} (path : ℕ) (t : Skiplist) (es : List Entry)
        → Reach b e m
        → e.immutable ≡ some t
        → Represents t es
        → Fits es
        → All (λ p. (p == path) ≡ false) e.tables
        → Reach b (write_table e path written e.immutable).0 m
    -- or fails, and may leave a part of the table there
    fail_flush :
        {b : Bool} {e : Engine File} {m : Store} (path : ℕ) (rest : Option Bytes)
        → Reach b e m
        → All (λ p. (p == path) ≡ false) e.tables
        → Reach b (write_table e path (failed rest) e.immutable).0 m
    -- a crash between two writes, and the engine that is opened after it
    crash :
        {b : Bool} {e : Engine File} {m : Store} (draws : ℕ → List Bool) (size_mb : Option ℕ)
        (f : File)
        → Reach b e m
        → Reopens crc lf encode decode e.wal f
        → Reach b (open_engine (replayed crc lf encode decode) decode draws e.disk size_mb f) m
    -- a crash within a write, that leaves the whole record of it
    late_crash :
        {e : Engine File} {m : Store} (draws : ℕ → List Bool) (size_mb : Option ℕ) (f : File)
        (w : Write)
        → Reach true e m
        → IsLoggable crc lf encode decode w
        → accepted f ≡ durable e.wal ++ record_bytes crc (encode (record_of w))
        → durable f ≡ durable e.wal ++ record_bytes crc (encode (record_of w))
        → Reach true
            (open_engine (replayed crc lf encode decode) decode draws e.disk size_mb f)
            (apply_write w m)
    -- or a part of it
    torn_crash :
        {e : Engine File} {m : Store} (draws : ℕ → List Bool) (size_mb : Option ℕ) (f : File)
        (w : Write) (n : ℕ)
        → Reach true e m
        → IsLoggable crc lf encode decode w
        → n < length (record_bytes crc (encode (record_of w)))
        → durable f ≡ durable e.wal ++ take n (record_bytes crc (encode (record_of w)))
        → Reach false (open_engine (replayed crc lf encode decode) decode draws e.disk size_mb f) m
    -- or a close, and the engine that is opened after it
    shut :
        {b : Bool} {e : Engine File} {m : Store} (draws : ℕ → List Bool) (size_mb : Option ℕ)
        (path : ℕ) (io : TableIo) (close_log : File → File × Option IoError) (f : File)
        → Reach b e m
        → durable (close_log e.wal).0 ≡ durable e.wal
        → Reopens crc lf encode decode (close_log e.wal).0 f
        → Reach b
            (open_engine
              (replayed crc lf encode decode)
              decode
              draws
              (close close_log e path io).0.disk
              size_mb
              f)
            m
