-- ===== src/Engine/Recovery.antt =====
-- internal/storage/engine.go: `recover` from the log of acknowledged writes.
use on_cloud_kv.Prelude.{
  ℕ, suc, ◌≡◌, refl, sym, ap, ◌∙◌, Bool, Option, none, some, List, [], ◌∷◌, ◌++◌, arith, All,
  All-append,
}
use mathlib.Core.Path.{subst}
use on_cloud_kv.Bytes.{Bytes}
use on_cloud_kv.Keys.{Key}
use on_cloud_kv.Entry.{Entry}
use on_cloud_kv.Bloom.{Sizing}
use on_cloud_kv.Skiplist
use on_cloud_kv.Skiplist.{Skiplist}
use on_cloud_kv.Skiplist.Invariant.{Represents-new}
use on_cloud_kv.Wal.{WalError, log_bytes, read_all}
use on_cloud_kv.Wal.Replay.{Fits, log_bytes-append, read_all-log_bytes}
use on_cloud_kv.Wal.Commit.{LogFile, append_alone, commit_batch_lem}
use on_cloud_kv.Engine.{
  Journal, Engine, WalRecord, op_put, op_delete, recover, put, delete, get, put_answered,
  delete_answered, request_flush,
}
use on_cloud_kv.Engine.Reads.{Stores, get-answer}
use on_cloud_kv.Engine.Writes.{put-Stores, delete-Stores}
use on_cloud_kv.Engine.Replays.{
  apply_record, apply_records, apply_records-append, recover-Represents,
}

-- A client's write.
pub data Write : Type 0 where
  put_key : Key → Bytes → ℕ → Write
  delete_key : Key → ℕ → Write

request_flush-wal : {Log : Type 0} (e : Engine Log) → (request_flush e).wal ≡ e.wal
unfolding request_flush
request_flush-wal e = ground arith

unfoldable pub record_of : Write → WalRecord
record_of (put_key k v version) = record { op = op_put; key = k; value = v; version = version }
record_of (delete_key k version) = record { op = op_delete; key = k; value = []; version = version }

module _ (j : Journal) (encode : WalRecord → Bytes) where
  open j use {Log, IoError, append}

  unfoldable pub perform : Engine Log → List Bool → Write → Engine Log × Option IoError
  perform e draw (put_key k v version) = put j encode e draw k v version
  perform e draw (delete_key k version) = delete j encode e draw k version

  put_answered_log :
      (e : Engine Log) (draw : List Bool) (k : Key) (v : Bytes) (version : ℕ)
      (r : Log × Option IoError)
      → (put_answered j encode e draw k v version r).1 ≡ none
      → ((put_answered j encode e draw k v version r).0.wal ≡ r.0) × (r.1 ≡ none)
  unfolding put_answered
  put_answered_log e draw k v version (l, some io) h = cc
  put_answered_log e draw k v version (l, none) h = (
    request_flush-wal (record e { wal = l; memtable = Skiplist.put e.memtable draw k v version }),
    refl,
  )

  delete_answered_log :
      (e : Engine Log) (draw : List Bool) (k : Key) (version : ℕ) (r : Log × Option IoError)
      → (delete_answered j encode e draw k version r).1 ≡ none
      → ((delete_answered j encode e draw k version r).0.wal ≡ r.0) × (r.1 ≡ none)
  unfolding delete_answered
  delete_answered_log e draw k version (l, some io) h = cc
  delete_answered_log e draw k version (l, none) h = (refl, refl)

  -- The log after a write that is answered without an error.
  perform_log :
      (e : Engine Log) (draw : List Bool) (w : Write)
      → (perform e draw w).1 ≡ none
      → ((perform e draw w).0.wal ≡ (append e.wal (encode (record_of w))).0)
        × ((append e.wal (encode (record_of w))).1 ≡ none)
  unfolding perform record_of put delete
  perform_log e draw (put_key k v version) h =
      put_answered_log e draw k v version (append e.wal (encode (record_of (put_key k v version))))
        h
  perform_log e draw (delete_key k version) h =
      delete_answered_log e draw k version
        (append e.wal (encode (record_of (delete_key k version)))) h

  pub perform-Stores :
      (e : Engine Log) (memory pending : List Entry) (tables : List (List Entry)) (draw : List Bool)
      (w : Write)
      → Stores e memory pending tables
      → (perform e draw w).1 ≡ none
      → Stores (perform e draw w).0 (apply_record memory (some (record_of w))) pending tables
  unfolding perform record_of apply_record
  perform-Stores e memory pending tables draw (put_key k v version) st h =
      put-Stores j encode e memory pending tables st draw k version v h
  perform-Stores e memory pending tables draw (delete_key k version) st h =
      delete-Stores j encode e memory pending tables st draw k version h

  unfoldable pub unless_failed : Option IoError → Option (Engine Log) → Option (Engine Log)
  unless_failed none rest = rest
  unless_failed (some io) rest = none

  -- Write after write, as long as each is answered without an error.
  unfoldable pub perform_all : (ℕ → List Bool) → ℕ → Engine Log → List Write → Option (Engine Log)
  unfolding unless_failed
  perform_all draws n e [] = some e
  perform_all draws n e (w ∷ ws) =
      let rest = perform_all draws (suc n) (perform e (draws n) w).0 ws in
      unless_failed (perform e (draws n) w).1 rest

  unless_failed_lem :
      (io : Option IoError) (rest : Option (Engine Log)) (e : Engine Log)
      → unless_failed io rest ≡ some e
      → (io ≡ none) × (rest ≡ some e)
  unfolding unless_failed
  unless_failed_lem none rest e h = (refl, h)
  unless_failed_lem (some io) rest e h = cc

-- The records that `ReadAll` returns; `recover` only logs the error.
unfoldable pub records_of : Option (List Bytes × Option WalError) → List Bytes
records_of none = []
records_of (some (raws, failure)) = raws

module _ (crc : Bytes → ℕ) (lf : LogFile) (encode : WalRecord → Bytes)
    (decode : Bytes → Option WalRecord) where
  open lf use {File, IoError, accepted, durable}

  -- The log of the package wal, as the engine calls it: one request at a time.
  abbrev pub wal_journal : Journal
  wal_journal = record { Log = File; IoError = IoError; append = append_alone crc lf }

  -- What `recover` gets back of the file that a crash leaves, whether or not `ReadAll` reports an error.
  unfoldable pub replayed : File → List Bytes
  replayed f = records_of (read_all crc (durable f))

  -- A log of whole records, all of them durable.
  pub record Holds (f : File) (ds : List Bytes) : Type 0 where
    pub accepts : accepted f ≡ log_bytes crc ds
    pub kept : durable f ≡ log_bytes crc ds
    pub fit : All (Fits crc) ds

  pub read_all-Holds :
      (f : File) (ds : List Bytes)
      → Holds f ds
      → (read_all crc (durable f) ≡ some (ds, none)) × (replayed f ≡ ds)
  unfolding replayed records_of
  read_all-Holds f ds h =
      let read : read_all crc (durable f) ≡ some (ds, none) =
        rw h.kept (read_all-log_bytes crc ds h.fit) in
      (read, ap records_of read)

  -- The record of a write can be logged and read back.
  abbrev pub IsLoggable : Write → Type 0
  IsLoggable w =
      Fits crc (encode (record_of w)) × (decode (encode (record_of w)) ≡ some (record_of w))

  pub perform-Holds :
      (e : Engine File) (ds : List Bytes) (draw : List Bool) (w : Write)
      → Holds e.wal ds
      → IsLoggable w
      → (perform wal_journal encode e draw w).1 ≡ none
      → Holds (perform wal_journal encode e draw w).0.wal (ds ++ encode (record_of w) ∷ [])
  unfolding append_alone
  perform-Holds e ds draw w held loggable h =
      let d = encode (record_of w) in
      let (same, done) = perform_log wal_journal encode e draw w h in
      let (file, disk) = commit_batch_lem crc lf e.wal (d ∷ []) done in
      let log : accepted e.wal ++ log_bytes crc (d ∷ []) ≡ log_bytes crc (ds ++ d ∷ []) =
        ap (λ b. b ++ log_bytes crc (d ∷ [])) held.accepts
        ∙ sym (log_bytes-append crc ds (d ∷ [])) in
      record {
        accepts = ap accepted same ∙ file ∙ log;
        kept = ap durable same ∙ disk ∙ log;
        fit = All-append (Fits crc) ds (d ∷ []) held.fit (loggable.0, tt);
      }

  -- An engine whose log tells what its memtable holds.
  pub record Recoverable (e : Engine File) (ds : List Bytes) (pending : List Entry)
      (tables : List (List Entry)) : Type 0 where
    pub log : Holds e.wal ds
    pub stores : Stores e (apply_records decode [] ds) pending tables

  -- An acknowledged write keeps it so.
  perform-Recoverable :
      (e : Engine File) (ds : List Bytes) (pending : List Entry) (tables : List (List Entry))
      (draw : List Bool) (w : Write)
      → Recoverable e ds pending tables
      → IsLoggable w
      → (perform wal_journal encode e draw w).1 ≡ none
      → Recoverable
          (perform wal_journal encode e draw w).0
          (ds ++ encode (record_of w) ∷ [])
          pending
          tables
  unfolding apply_records
  perform-Recoverable e ds pending tables draw w r loggable h = record {
    log = perform-Holds e ds draw w r.log loggable h;
    stores =
        rw (apply_records-append, loggable.1)
          (perform-Stores wal_journal encode e (apply_records decode [] ds) pending tables draw w
            r.stores h);
  }

  perform_all-Recoverable :
      (draws : ℕ → List Bool) (n : ℕ) (e e' : Engine File) (ws : List Write) (ds : List Bytes)
      (pending : List Entry) (tables : List (List Entry))
      → Recoverable e ds pending tables
      → All IsLoggable ws
      → perform_all wal_journal encode draws n e ws ≡ some e'
      → (all_ : List Bytes) × Recoverable e' all_ pending tables
  unfolding perform_all
  perform_all-Recoverable draws n e e' [] ds pending tables r loggable h =
      let q : e ≡ e' = cc in (ds, subst (λ x. Recoverable x ds pending tables) q r)
  perform_all-Recoverable draws n e e' (w ∷ ws) ds pending tables r loggable h =
      let e1 = (perform wal_journal encode e (draws n) w).0 in
      let rest = perform_all wal_journal encode draws (suc n) e1 ws in
      let (done, more) =
        unless_failed_lem wal_journal encode (perform wal_journal encode e (draws n) w).1 rest e'
          h in
      perform_all-Recoverable draws (suc n) e1 e' ws (ds ++ encode (record_of w) ∷ []) pending
        tables (perform-Recoverable e ds pending tables (draws n) w r loggable.0 done) loggable.1
        more

  -- After any writes that are all answered without an error, one after the other, a crash leaves a log that
  -- is replayed without an error, and an engine that recovers its memtable from it reads like the one that
  -- was lost, whatever levels the recovery draws. At first the memtables and tables are well-formed and the
  -- log is whole, durable and tells what the memtable holds; the record of each write fits the fields of
  -- the log and decodes to what was encoded. The file keeps to the laws of `LogFile`.
  pub recover-perform_all :
      (z : Sizing) (draws draws' : ℕ → List Bool) (e e' : Engine File) (ws : List Write)
      (ds : List Bytes) (pending : List Entry) (tables : List (List Entry)) (k : Key)
      → Recoverable e ds pending tables
      → All IsLoggable ws
      → perform_all wal_journal encode draws 0 e ws ≡ some e'
      → (read_all crc (durable e'.wal) ≡ some (replayed e'.wal, none))
        × (get z (record e' { memtable = recover decode draws' 0 Skiplist.new (replayed e'.wal) }) k
            ≡ get z e' k)
  recover-perform_all z draws draws' e e' ws ds pending tables k r loggable h =
      let (all_, r') = perform_all-Recoverable draws 0 e e' ws ds pending tables r loggable h in
      let (read, same) = read_all-Holds e'.wal all_ r'.log in
      let memory = apply_records decode [] all_ in
      (
        rw same read,
        rw same (
            get-answer z (record e' { memtable = recover decode draws' 0 Skiplist.new all_ }) memory
              pending tables k
              (record {
                in_memory = recover-Represents decode draws' 0 Skiplist.new [] all_ Represents-new;
                in_pending = r'.stores.in_pending;
                on_disk = r'.stores.on_disk;
              })
            ∙ sym (get-answer z e' memory pending tables k r'.stores)),
      )
