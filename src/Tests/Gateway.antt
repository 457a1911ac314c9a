-- ===== src/Tests/Gateway.antt =====
-- The theorems on the runs of the engine, snapshots, the gateways and the client at concrete inputs.
use on_cloud_kv.Prelude.{
  ℕ, suc, ◌≡◌, refl, Bool, true, false, none, some, List, [], ◌∷◌, ◌++◌, take, arith, length,
  if◌then◌else◌,
}
use on_cloud_kv.Bytes.{Bytes, put_uint32}
use on_cloud_kv.Keys.{key_ltb, key_eqb}
use on_cloud_kv.Entry.{Entry}
use on_cloud_kv.Sstable.Reader.{ok}
use on_cloud_kv.Engine
use on_cloud_kv.Engine.{Engine, open_engine, swap, put_answered}
use on_cloud_kv.Engine.Recovery.{Write, put_key, record_of, perform, wal_journal, replayed}
use on_cloud_kv.Wal.{read_all, record_bytes, header}
use on_cloud_kv.Wal.Commit.{
  LogFile, append_alone, commit_batch, write_batch, write_record, sync_batch, ◌then_do◌,
}
use on_cloud_kv.Tests.Storage.{good_file}
use on_cloud_kv.Engine.View.{apply_write, visible}
use on_cloud_kv.Engine.Runs.{Reach, start, write, begin_flush, torn_crash}
use on_cloud_kv.Engine.Steps.{Reach-get}
use mathlib.Core.List.Permᴰ
use on_cloud_kv.Entries.{find, upsert}
use on_cloud_kv.Entries.Maps.{Distinct}
use on_cloud_kv.Engine.Scan.{scan-get}
use on_cloud_kv.Skiplist.Invariant.{Represents-new}
use on_cloud_kv.Skiplist.Refine.{live, put-Represents}
use on_cloud_kv.Engine.Reads.{Stores}
use on_cloud_kv.Engine.Snapshot.{live_entries}
use on_cloud_kv.Skiplist
use on_cloud_kv.Fsm
use on_cloud_kv.Fsm.Restore.{snapshot-restore}
use on_cloud_kv.Fsm.{Fsm, Command}
use on_cloud_kv.Watch.{new_hub}
use on_cloud_kv.Batch.{BatchResult}
use on_cloud_kv.Router.{strong, read_your_writes}
use on_cloud_kv.Api
use on_cloud_kv.Api.{StatusResponse}
use on_cloud_kv.HttpApi.{
  Request, put_method, get_method, delete_method, ReadState, handle_key, status,
}
use on_cloud_kv.HttpApi.Mirror.{key_path, as_response, as_read, handle_key-mirrors}
use on_cloud_kv.Node.{fault}
use on_cloud_kv.Cli.{Flags, ok_version, value_version, exit_ok, output, put_cmd, get_cmd}
use on_cloud_kv.Cli.RoundTrip.{Served, served_client, put_cmd-get_cmd}
use on_cloud_kv.Tests.{
  byte_sum, ten_bits, list_journal, encode_record, decode_record, decode-encode, empty_engine,
  empty_engine-Stores,
}

-- A new engine, the begin of a flush, a put, and a crash.
abbrev opened : Engine (LogFile.File good_file)
opened =
    open_engine (replayed byte_sum good_file encode_record decode_record) decode_record (λ n. [])
      (λ p. none) (some 1) ([], [], [])

abbrev after_put : Engine (LogFile.File good_file)
after_put =
    (perform (wal_journal byte_sum good_file encode_record decode_record) encode_record
      (swap opened) [] (put_key (97 ∷ []) (1 ∷ []) 5)).0

-- A second put, of which a crash leaves nine bytes in the log.
abbrev torn_put : Write
torn_put = put_key (98 ∷ []) (2 ∷ []) 6

abbrev left_bytes : Bytes
left_bytes =
    good_file.durable after_put.wal
    ++ take 9 (record_bytes byte_sum (encode_record (record_of torn_put)))

abbrev left_log : LogFile.File good_file
left_log = (left_bytes, left_bytes, left_bytes)

abbrev reopened : Engine (LogFile.File good_file)
reopened =
    open_engine (replayed byte_sum good_file encode_record decode_record) decode_record (λ n. [])
      after_put.disk none left_log

after_put-Reach :
    Reach byte_sum good_file encode_record decode_record true after_put
      (apply_write (put_key (97 ∷ []) (1 ∷ []) 5) (λ k. none))
unfolding perform Engine.put put_answered open_engine swap append_alone commit_batch write_batch
    write_record sync_batch ◌then_do◌ record_of
after_put-Reach =
    write [] (put_key (97 ∷ []) (1 ∷ []) 5)
      (begin_flush (start (λ n. []) (λ p. none) (some 1) ([], [], []) refl refl) refl)
      ((omega arith, omega arith), decode-encode _) refl

reopened-Reach :
    Reach byte_sum good_file encode_record decode_record false reopened
      (apply_write (put_key (97 ∷ []) (1 ∷ []) 5) (λ k. none))
unfolding record_of record_bytes header put_uint32
reopened-Reach =
    torn_crash (λ n. []) none left_log torn_put 9 after_put-Reach
      ((omega arith, omega arith), decode-encode _) (omega arith) refl

Reach-get_example :
    (a : Entry × Bool) × (raws : List Bytes) × (Engine.get ten_bits reopened (97 ∷ []) ≡ ok a)
    × (visible a ≡ apply_write (put_key (97 ∷ []) (1 ∷ []) 5) (λ k. none) (97 ∷ []))
    × (read_all byte_sum (good_file.durable reopened.wal) ≡ some (raws, none))
Reach-get_example =
    Reach-get byte_sum good_file encode_record decode_record ten_bits (97 ∷ []) reopened-Reach

-- A file that is no table.
abbrev bad_disk : Engine (List Bytes)
bad_disk = record empty_engine { tables = 4 ∷ []; disk = λ p. some (1 ∷ 2 ∷ 3 ∷ []) }

abbrev request : Request
request = record {
  method = get_method;
  path = key_path (97 ∷ []);
  consistency = some strong;
  session_index = [];
  min_version = [];
  ttl = [];
  body = 1 ∷ 2 ∷ [];
  first_read = 7;
}

abbrev reads : ReadState (List Bytes)
reads = record { verified = true; looks = []; store = empty_engine }

abbrev count_up : ℕ → Command → ℕ × BatchResult
count_up n c = (suc n, record { version = 7; has_error = false })

handle_key-mirrors_example :
    (handle_key length ℕ
        (λ n. true)
        (λ n. [])
        count_up
        ten_bits
        3
        reads
        (record request { method = put_method })
      ≡ (
        (Api.put ℕ (λ n. true) count_up 3 (97 ∷ []) (1 ∷ 2 ∷ []) 0).0,
        as_response [] 200 (Api.put ℕ (λ n. true) count_up 3 (97 ∷ []) (1 ∷ 2 ∷ []) 0).1,
      ))
    × (handle_key length ℕ
          (λ n. true)
          (λ n. [])
          count_up
          ten_bits
          3
          reads
          (record request { method = delete_method })
        ≡ (
          (Api.delete ℕ (λ n. true) count_up 3 (97 ∷ [])).0,
          as_response [] 204 (Api.delete ℕ (λ n. true) count_up 3 (97 ∷ [])).1,
        ))
    × (handle_key length ℕ
          (λ n. true)
          (λ n. [])
          count_up
          ten_bits
          3
          reads
          (record request { method = get_method })
        ≡ (
          3,
          (if key_eqb (97 ∷ []) []
              then status 400
              else as_read
                  (Api.get ten_bits true [] empty_engine (97 ∷ []) (some strong) none 0 0)),
        ))
handle_key-mirrors_example =
    handle_key-mirrors length ℕ (λ n. true) (λ n. []) count_up ten_bits 3 reads request (97 ∷ [])
      refl (omega arith, omega arith)

abbrev flags : Flags
flags = record {
  consistency = none;
  ttl = 0;
  session_index = 0;
  min_version = 0;
  limit = 100;
  partition_nodes = "";
}

abbrev later : Flags
later = record flags { consistency = some read_your_writes; session_index = 5 }

abbrev served : Served (List Bytes)
served = record { machine = record { store = empty_engine; watcher = new_hub }; applied = 4 }

abbrev put_apple : Command
put_apple = record { type = 0; key = 97 ∷ []; value = 1 ∷ []; ttl_seconds = 0 }

put_cmd-get_cmd_example :
    (output
        (served_client list_journal encode_record
          (λ c. some [])
          (λ d. some put_apple)
          ten_bits
          (λ w k. (w, fault none))
          (λ w. (w, fault none)))
        (put_cmd
          (served_client list_journal encode_record
            (λ c. some [])
            (λ d. some put_apple)
            ten_bits
            (λ w k. (w, fault none))
            (λ w. (w, fault none)))
          served
          flags
          ((97 ∷ []) ∷ (1 ∷ []) ∷ []))
      ≡ (ok_version 5 ∷ [], exit_ok))
    × (output
          (served_client list_journal encode_record
            (λ c. some [])
            (λ d. some put_apple)
            ten_bits
            (λ w k. (w, fault none))
            (λ w. (w, fault none)))
          (get_cmd
            (served_client list_journal encode_record
              (λ c. some [])
              (λ d. some put_apple)
              ten_bits
              (λ w k. (w, fault none))
              (λ w. (w, fault none)))
            (put_cmd
              (served_client list_journal encode_record
                (λ c. some [])
                (λ d. some put_apple)
                ten_bits
                (λ w k. (w, fault none))
                (λ w. (w, fault none)))
              served
              flags
              ((97 ∷ []) ∷ (1 ∷ []) ∷ [])).0
            later
            ((97 ∷ []) ∷ []))
        ≡ (value_version (1 ∷ []) 5 ∷ [], exit_ok))
unfolding key_eqb
put_cmd-get_cmd_example =
    put_cmd-get_cmd list_journal encode_record (λ c. some []) (λ d. some put_apple) ten_bits
      (λ w k. (w, fault none)) (λ w. (w, fault none)) served [] [] [] flags later (97 ∷ []) (1 ∷ [])
      [] empty_engine-Stores refl refl refl refl (omega arith) (omega arith)

-- A machine with an apple.
abbrev apples : List Entry
apples = upsert (live (97 ∷ []) (1 ∷ []) 5) []

abbrev apple_machine : Fsm (List Bytes)
apple_machine = record {
  store = record empty_engine { memtable = Skiplist.put Skiplist.new [] (97 ∷ []) (1 ∷ []) 5 };
  watcher = new_hub;
}

apple_machine-Stores : Stores apple_machine.store apples [] []
apple_machine-Stores = record {
  in_memory = put-Represents Skiplist.new [] (97 ∷ []) Represents-new [] (1 ∷ []) 5;
  in_pending = refl;
  on_disk = tt;
}

snapshot-restore_example :
    (Fsm.snapshot ten_bits apple_machine ≡ ok (live_entries apples []))
    × ((a : Entry × Bool) × (b : Entry × Bool) × (Engine.get ten_bits apple_machine.store (97 ∷ [])
          ≡ ok a)
        × (Engine.get ten_bits
              (Fsm.restore
                (λ d. some (live_entries apples []))
                (λ n. true ∷ [])
                (record { store = empty_engine; watcher = new_hub })
                []).0.store
              (97 ∷ [])
            ≡ ok b)
        × (visible b ≡ visible a))
snapshot-restore_example =
    snapshot-restore ten_bits (λ d. some (live_entries apples [])) (λ n. true ∷ []) apple_machine
      (record { store = empty_engine; watcher = new_hub }) apples [] (live_entries apples []) []
      (97 ∷ []) apple_machine-Stores refl refl (Permᴰ.refl (live_entries apples [])) refl

scan-get_example :
    (es : List Entry) × (a : Entry × Bool) × (Engine.scan ten_bits apple_machine.store (65 ∷ []) 0
      ≡ ok es)
    × (Engine.get ten_bits apple_machine.store (97 ∷ []) ≡ ok a)
    × Distinct es
    × (find (97 ∷ []) es ≡ (if key_ltb (97 ∷ []) (65 ∷ []) then none else visible a))
scan-get_example =
    scan-get ten_bits apple_machine.store apples [] (65 ∷ []) (97 ∷ []) apple_machine-Stores
