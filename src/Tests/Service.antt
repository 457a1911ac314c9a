-- ===== src/Tests/Service.antt =====
-- The theorems on the engine and what stands above it at concrete inputs.
use on_cloud_kv.Prelude.{
  length, ◌<◌, suc, ℕ, ◌≡◌, refl, true, false, none, some, List, [], ◌∷◌, ◌++◌, arith, take, All,
  read_full, if◌then◌else◌,
}
use on_cloud_kv.Bytes.{Bytes, put_uint32, put_uint64, uint32, uint64}
use on_cloud_kv.Keys.{key_eqb, key_ltb}
use on_cloud_kv.Entry.{Entry, int64_ltb}
use on_cloud_kv.Entries.{find, upsert, IsOrdered}
use on_cloud_kv.Skiplist
use on_cloud_kv.Skiplist.Invariant.{Represents-new}
use on_cloud_kv.Skiplist.Refine.{live, put-Represents}
use on_cloud_kv.Skiplist.Tombstone.{tombstone}
use on_cloud_kv.Sstable
use on_cloud_kv.Sstable.Reader
use on_cloud_kv.Sstable.{entry_bytes, index_len, build}
use on_cloud_kv.Sstable.Reader.{Outcome, ok}
use on_cloud_kv.Sstable.Open.{data_block, index_of, Fits}
use on_cloud_kv.Engine
use on_cloud_kv.Engine.{Journal, Engine, put_answered, delete_answered, written, request_flush}
use on_cloud_kv.Engine.Reads.{Stores, newest, handed_back, get-newest}
use on_cloud_kv.Engine.Writes.{put-get, delete-get}
use on_cloud_kv.Engine.Flush.{flush-get}
use on_cloud_kv.Engine.Replays.{apply_records}
use on_cloud_kv.Engine.Recovery.{
  put_key, record_of, perform, perform_all, unless_failed, wal_journal, replayed, Recoverable,
  recover-perform_all,
}
use on_cloud_kv.Wal.{log_bytes, read_all}
use on_cloud_kv.Wal.Commit.{
  LogFile, append_alone, commit_batch, write_batch, write_record, sync_batch, ◌then_do◌,
}
use on_cloud_kv.Tests.Storage.{good_file}
use on_cloud_kv.Compaction
use on_cloud_kv.Compaction.{Compactor, Compacted, compacted, see_all}
use on_cloud_kv.Compaction.Merge.{highest, see_all-highest}
use on_cloud_kv.Compaction.Swap.{HasFile, compact-files}
use on_cloud_kv.Watch
use on_cloud_kv.Watch.{Hub, Event, event_put, Subscription, lookup, channel_size, new_hub, notify}
use on_cloud_kv.Watch.Delivery.{matching, notify_all, notify_all-lookup}
use on_cloud_kv.Fsm
use on_cloud_kv.Fsm.{Fsm, Command, RaftLog, Response, apply_result, failed}
use on_cloud_kv.Fsm.Apply.{event_of, apply-watcher, apply-quiet, apply-get}
use on_cloud_kv.Api
use on_cloud_kv.Api.{success}
use on_cloud_kv.Api.Writes.{put-refused, submit_at}
use on_cloud_kv.Batch
use on_cloud_kv.Batch.{BatchRequest, Signal, request, tick, stop, Future, response}
use on_cloud_kv.Batch.Answers.{channels, answered, requested, loop-channels, step-length}
use on_cloud_kv.Router
use on_cloud_kv.Router.{Mode, read_your_writes, Look, replied}
use on_cloud_kv.Router.Reads.{Granted, get-Granted}
use on_cloud_kv.Tests.{
  byte_sum, ten_bits, apple, pear, list_journal, encode_record, decode_record, decode-encode,
  empty_engine, empty_engine-Stores,
}

put-get_example :
    Engine.get ten_bits
      (Engine.put list_journal encode_record empty_engine [] (97 ∷ []) (1 ∷ []) 5).0
      (97 ∷ [])
    ≡ (if key_eqb (97 ∷ []) (97 ∷ [])
        then ok (live (97 ∷ []) (1 ∷ []) 5, true)
        else Engine.get ten_bits empty_engine (97 ∷ []))
unfolding Engine.put put_answered
put-get_example =
    put-get list_journal encode_record empty_engine [] [] [] empty_engine-Stores [] (97 ∷ []) 5
      ten_bits (1 ∷ []) (97 ∷ []) refl

delete-get_example :
    Engine.get ten_bits
      (Engine.delete list_journal encode_record empty_engine [] (97 ∷ []) 5).0
      (98 ∷ [])
    ≡ (if key_eqb (97 ∷ []) (98 ∷ [])
        then ok (tombstone (97 ∷ []) 5 (find (97 ∷ []) []), false)
        else Engine.get ten_bits empty_engine (98 ∷ []))
unfolding Engine.delete delete_answered
delete-get_example =
    delete-get list_journal encode_record empty_engine [] [] [] empty_engine-Stores [] (97 ∷ []) 5
      ten_bits (98 ∷ []) refl

-- An engine with an apple in its memtable.
abbrev apple_engine : Engine (List Bytes)
apple_engine = record empty_engine { memtable = Skiplist.put Skiplist.new [] (97 ∷ []) (1 ∷ []) 5 }

apple_engine-Stores : Stores apple_engine (live (97 ∷ []) (1 ∷ []) 5 ∷ []) [] []
unfolding upsert
apple_engine-Stores = record {
  in_memory = put-Represents Skiplist.new [] (97 ∷ []) Represents-new [] (1 ∷ []) 5;
  in_pending = refl;
  on_disk = tt;
}

-- A table with one tombstone.
abbrev dead_pear : Entry
dead_pear = record { key = 98 ∷ []; value = []; version = 3; deleted = true }

dead_pear-Fits : Fits (dead_pear ∷ [])
unfolding data_block entry_bytes put_uint32 put_uint64 index_len index_of
dead_pear-Fits = record {
  storable = ((omega arith, omega arith, omega arith), tt);
  data_fits = omega arith;
  index_fits = omega arith;
  count_fits = omega arith;
}

-- An engine with a live entry in its memtable and a tombstone in its one table.
abbrev fruit_engine : Engine (List Bytes)
fruit_engine = record apple_engine { tables = 7 ∷ []; disk = λ path. some (build (dead_pear ∷ [])) }

fruit_engine-Stores :
    Stores fruit_engine (live (97 ∷ []) (1 ∷ []) 5 ∷ []) [] ((dead_pear ∷ []) ∷ [])
fruit_engine-Stores = record {
  in_memory = apple_engine-Stores.in_memory;
  in_pending = refl;
  on_disk = ((dead_pear-Fits, (tt, tt), refl), tt);
}

get-newest_example :
    Engine.get ten_bits fruit_engine (98 ∷ [])
    ≡ ok (
        handed_back
          (newest (98 ∷ []) ((live (97 ∷ []) (1 ∷ []) 5 ∷ []) ∷ [] ∷ (dead_pear ∷ []) ∷ [])))
get-newest_example =
    get-newest ten_bits fruit_engine (live (97 ∷ []) (1 ∷ []) 5 ∷ []) [] ((dead_pear ∷ []) ∷ [])
      (98 ∷ []) fruit_engine-Stores

apple-Fits : Fits (live (97 ∷ []) (1 ∷ []) 5 ∷ [])
unfolding data_block entry_bytes put_uint32 put_uint64 index_len index_of
apple-Fits = record {
  storable = ((omega arith, omega arith, omega arith), tt);
  data_fits = omega arith;
  index_fits = omega arith;
  count_fits = omega arith;
}

flush-get_example :
    Engine.get ten_bits (Engine.flush apple_engine 7 written).0 (97 ∷ [])
    ≡ Engine.get ten_bits apple_engine (97 ∷ [])
flush-get_example =
    flush-get ten_bits apple_engine (live (97 ∷ []) (1 ∷ []) 5 ∷ []) [] apple_engine-Stores 7 tt
      apple-Fits (97 ∷ [])

-- An engine on an empty log of the package wal, and the log after a put.
abbrev logged_engine : Engine (LogFile.File good_file)
logged_engine = record {
  memtable = Skiplist.new;
  immutable = none;
  wal = ([], [], []);
  tables = [];
  disk = λ p. none;
  max_mem = 100;
  flush_ch = false;
}

abbrev put_engine : Engine (LogFile.File good_file)
put_engine =
    (perform (wal_journal byte_sum good_file encode_record decode_record) encode_record
      logged_engine [] (put_key (97 ∷ []) (1 ∷ []) 5)).0

logged_engine-Recoverable :
    Recoverable byte_sum good_file encode_record decode_record logged_engine [] [] []
unfolding log_bytes apply_records
logged_engine-Recoverable = record {
  log = record { accepts = refl; kept = refl; fit = tt };
  stores = record { in_memory = Represents-new; in_pending = refl; on_disk = tt };
}

recover-perform_all_example :
    (read_all byte_sum (good_file.durable put_engine.wal)
      ≡ some (replayed byte_sum good_file encode_record decode_record put_engine.wal, none))
    × (Engine.get ten_bits
          (record put_engine {
            memtable =
                Engine.recover decode_record
                  (λ n. true ∷ [])
                  0
                  Skiplist.new
                  (replayed byte_sum good_file encode_record decode_record put_engine.wal);
          })
          (97 ∷ [])
        ≡ Engine.get ten_bits put_engine (97 ∷ []))
unfolding perform_all unless_failed perform Engine.put put_answered append_alone commit_batch
    write_batch write_record sync_batch ◌then_do◌ request_flush record_of
recover-perform_all_example =
    recover-perform_all byte_sum good_file encode_record decode_record ten_bits (λ n. [])
      (λ n. true ∷ []) logged_engine put_engine (put_key (97 ∷ []) (1 ∷ []) 5 ∷ []) [] [] []
      (97 ∷ []) logged_engine-Recoverable (((omega arith, omega arith), decode-encode _), tt) refl

see_all-highest_example :
    (find (97 ∷ []) (see_all [] (apple ∷ pear ∷ []))
      ≡ highest (97 ∷ []) (find (97 ∷ []) []) (apple ∷ pear ∷ []))
    × IsOrdered (see_all [] (apple ∷ pear ∷ []))
see_all-highest_example = see_all-highest (97 ∷ []) [] (apple ∷ pear ∷ []) tt

-- Four tables with an apple each.
abbrev four_tables : Compactor
four_tables = record { tables = 4 ∷ 3 ∷ 2 ∷ 1 ∷ []; disk = λ p. some (build (apple ∷ [])) }

abbrev compacted_tables : Compactor
compacted_tables =
    Compaction.install four_tables 9 (Compaction.select_tier four_tables.disk four_tables.tables)
      (build (apple ∷ []))

compact-files_example : All (HasFile compacted_tables.disk) compacted_tables.tables
unfolding Compaction.compact Compaction.compact_tier Compaction.select_tier Compaction.stat_all
    Compaction.stat_next Compaction.sort_sized Compaction.insert_sized Compaction.tier_of
    Compaction.tier_rest Compaction.in_tier Compaction.merge Compaction.open_all
    Compaction.open_next Compaction.open_path Compaction.merge_opened Compaction.scan_all
    Compaction.merged_file Compaction.see_all Compaction.see Compaction.see_over
    Compaction.without_tombstones Compaction.compact_merged Compaction.is_one_of build
    Sstable.write_all Sstable.write Sstable.close entry_bytes Sstable.index_bytes
    Sstable.index_block index_len Sstable.footer put_uint32 put_uint64 uint32 uint64
    Reader.open_reader Reader.load_footer Reader.load_block Reader.parse_index Reader.index_round
    Reader.index_fields Reader.or_cut Reader.with_filter Reader.scan Reader.scan_at
    Reader.index_from Reader.read_loop Reader.read_entry Reader.uint8 read_full find upsert key_eqb
    key_ltb int64_ltb
compact-files_example =
    compact-files ten_bits four_tables compacted_tables 9 refl
      (
        (build (apple ∷ []), refl),
        (
          (build (apple ∷ []), refl),
          ((build (apple ∷ []), refl), ((build (apple ∷ []), refl), tt)),
        ),
      )
      refl

abbrev plums : Hub
plums = (Watch.subscribe new_hub (112 ∷ [])).0

abbrev plum_event : Event
plum_event = record { type = event_put; key = 112 ∷ 108 ∷ []; value = []; version = 9 }

notify_all-lookup_example :
    lookup 0 (notify_all plums (plum_event ∷ [])).subs
    ≡ some (record {
      prefix = 112 ∷ [];
      ch = take channel_size ([] ++ matching (112 ∷ []) (plum_event ∷ []));
    })
unfolding Watch.subscribe new_hub lookup
notify_all-lookup_example =
    notify_all-lookup plums (plum_event ∷ []) 0 (record { prefix = 112 ∷ []; ch = [] }) refl
      (omega arith)

-- Subscribers under the ids 5 and 7.
abbrev two_subscribers : Hub
two_subscribers = record {
  subs = (5, record { prefix = 97 ∷ []; ch = [] }) ∷ (7, record { prefix = []; ch = [] }) ∷ [];
  next = 8;
}

-- One command, whatever the data of the log entry.
abbrev put_apple : Command
put_apple = record { type = 0; key = 97 ∷ []; value = 1 ∷ []; ttl_seconds = 0 }

abbrev machine : Fsm (List Bytes)
machine = record { store = empty_engine; watcher = new_hub }

abbrev entry_five : RaftLog
entry_five = record { is_command = true; index = 5; payload = [] }

apply-watcher_example :
    ((Fsm.apply list_journal encode_record (λ d. some put_apple) machine [] entry_five).0.watcher
      ≡ notify new_hub (event_of 5 put_apple))
    × (◌≡◌ {A = ℕ} 5 5)
unfolding Fsm.apply Fsm.apply_command Fsm.after_write Engine.put put_answered
apply-watcher_example =
    apply-watcher list_journal encode_record (λ d. some put_apple) machine [] 5 5 [] put_apple refl
      refl

apply-quiet_example :
    (Fsm.apply list_journal encode_record (λ d. none) machine [] entry_five).0.watcher ≡ new_hub
unfolding Fsm.apply Fsm.apply_command
apply-quiet_example = apply-quiet list_journal encode_record (λ d. none) machine [] entry_five refl

apply-get_example :
    Engine.get ten_bits
      (Fsm.apply list_journal encode_record (λ d. some put_apple) machine [] entry_five).0.store
      (97 ∷ [])
    ≡ ok (live (97 ∷ []) (1 ∷ []) 5, true)
unfolding Fsm.apply Fsm.apply_command Fsm.after_write Engine.put put_answered
apply-get_example =
    apply-get list_journal encode_record (λ d. some put_apple) ten_bits machine [] [] [] [] 5 5 []
      put_apple empty_engine-Stores refl refl refl

loop-channels_example :
    answered
        (Batch.loop ℕ
          (λ r d. (r, response (apply_result r)))
          (λ c. some [])
          3
          []
          (request (record { cmd = put_apple; result = 8 }) ∷ tick ∷ [])).1
      ++ channels
          (Batch.loop ℕ
            (λ r d. (r, response (apply_result r)))
            (λ c. some [])
            3
            []
            (request (record { cmd = put_apple; result = 8 }) ∷ tick ∷ [])).0
    ≡ channels [] ++ requested (request (record { cmd = put_apple; result = 8 }) ∷ tick ∷ [])
loop-channels_example =
    loop-channels ℕ (λ r d. (r, response (apply_result r))) (λ c. some []) 3 []
      (request (record { cmd = put_apple; result = 8 }) ∷ tick ∷ [])

get-Granted_example :
    Granted true
      (record { applied = 4; cancelled = false } ∷ record { applied = 5; cancelled = false } ∷ [])
      read_your_writes
      5
      0
    × (Engine.get ten_bits empty_engine (97 ∷ []) ≡ Engine.get ten_bits empty_engine (97 ∷ []))
unfolding Router.get Router.wait_for_index Router.wait_loop Router.after_wait
get-Granted_example =
    get-Granted ten_bits true
      (record { applied = 4; cancelled = false } ∷ record { applied = 5; cancelled = false } ∷ [])
      empty_engine (97 ∷ []) read_your_writes 5 0 (Engine.get ten_bits empty_engine (97 ∷ [])) refl

step-length_example :
    length
      (Batch.step ℕ
        (λ r d. (r, response (apply_result r)))
        (λ c. some [])
        3
        []
        (request (record { cmd = put_apple; result = 8 }))).pending
    < Batch.batch_max_size
step-length_example =
    step-length ℕ (λ r d. (r, response (apply_result r))) (λ c. some []) 3 []
      (request (record { cmd = put_apple; result = 8 })) (omega arith)

abbrev count_up : ℕ → Command → ℕ × Batch.BatchResult
count_up n c = (suc n, record { version = 7; has_error = false })

-- A journal that cannot be written.
abbrev broken_journal : Journal
broken_journal = record { Log = List Bytes; IoError = ℕ; append = λ l d. (l, some 5) }

put-refused_example :
    (Api.put
      (Fsm (List Bytes))
      (λ n. true)
      (submit_at broken_journal encode_record (λ c. some []) (λ d. some put_apple) 5)
      machine
      (97 ∷ [])
      (1 ∷ [])
      0).1
    ≡ success 0
unfolding key_eqb
put-refused_example =
    put-refused broken_journal encode_record (λ c. some []) (λ d. some put_apple) machine (97 ∷ [])
      (1 ∷ []) 0 5 [] 5 refl refl refl refl
