-- ===== src/Tests/Storage.antt =====
-- The theorems on the log, the memtable and the tables at concrete inputs.
use on_cloud_kv.Prelude.{
  read_full, Within, sym, append_assoc, append-nil, ℕ, ◌≡◌, refl, true, false, Option, none, some,
  List, [], ◌∷◌, ◌++◌, arith, take,
}
use on_cloud_kv.Bytes.{Bytes, uint32, put_uint32, put_uint64}
use on_cloud_kv.Wal
use on_cloud_kv.Keys.{key_ltb}
use on_cloud_kv.Entry.{Entry}
use on_cloud_kv.Entries.{find, upsert, from, IsOrdered}
use on_cloud_kv.Wal.{WalError, checksum_mismatch, read_all, log_bytes, record_bytes, header}
use on_cloud_kv.Wal.Replay.{read_all_torn, read_all_damaged, read_all_total}
use on_cloud_kv.Wal.Commit
use on_cloud_kv.Wal.Commit.{LogFile, commit_round-durable}
use on_cloud_kv.Wal.Crashes.{Crashes}
use on_cloud_kv.Wal.History.{Happens, arrives, wakes, run, acked, run-durable}
use on_cloud_kv.Bloom
use on_cloud_kv.Bloom.Member.{add_all, contains-add_all, new-IsValid}
use on_cloud_kv.Skiplist
use on_cloud_kv.Skiplist.Invariant.{Represents, Represents-new, get-find}
use on_cloud_kv.Skiplist.Refine.{live, put-Represents}
use on_cloud_kv.Skiplist.Tombstone.{tombstone, delete-Represents}
use on_cloud_kv.Skiplist.Range.{limited, until, scan-range}
use on_cloud_kv.Sstable.{build, entry_bytes, index_len}
use on_cloud_kv.Sstable.Reader
use on_cloud_kv.Sstable.Reader.{Outcome, ok, open_reader}
use on_cloud_kv.Sstable.Open.{data_block, index_of, Fits, reader_of, open_reader-build}
use on_cloud_kv.Sstable.Lookup.{get-build}
use on_cloud_kv.Sstable.Scan.{scan-limit, scan-overrun}
use on_cloud_kv.Tests.{byte_sum, ten_bits, apple, pear}

read_all_torn_example :
    read_all byte_sum
      (log_bytes byte_sum ((1 ∷ 2 ∷ []) ∷ []) ++ take 9 (record_bytes byte_sum (3 ∷ 4 ∷ [])))
    ≡ some ((1 ∷ 2 ∷ []) ∷ [], none)
unfolding record_bytes header put_uint32
read_all_torn_example =
    read_all_torn byte_sum ((1 ∷ 2 ∷ []) ∷ []) (3 ∷ 4 ∷ []) 9 ((omega arith, omega arith), tt)
      (omega arith, omega arith) (omega arith)

read_all_damaged_example :
    read_all byte_sum (
      log_bytes byte_sum ((1 ∷ 2 ∷ []) ∷ [])
      ++ ((header byte_sum (3 ∷ 4 ∷ []) ++ (3 ∷ 5 ∷ [])) ++ []))
    ≡ some ((1 ∷ 2 ∷ []) ∷ [], some checksum_mismatch)
read_all_damaged_example =
    read_all_damaged byte_sum ((1 ∷ 2 ∷ []) ∷ []) (3 ∷ 4 ∷ []) (3 ∷ 5 ∷ []) []
      ((omega arith, omega arith), tt) (omega arith, omega arith) refl (λ h. omega arith)

read_all_total_example :
    (r : List Bytes × Option WalError) × (read_all byte_sum (0 ∷ 0 ∷ 0 ∷ 1 ∷ []) ≡ some r)
read_all_total_example = read_all_total byte_sum (0 ∷ 0 ∷ 0 ∷ 1 ∷ [])

-- A file that never fails: what was accepted, handed to the file, and made durable.
abbrev pub good_file : LogFile
good_file = record {
  File = Bytes × Bytes × Bytes;
  IoError = ℕ;
  write = λ f b. ((f.0 ++ b, f.1, f.2), none);
  flush = λ f. ((f.0, f.0, f.2), none);
  sync = λ f. ((f.0, f.1, f.1), none);
  close_file = λ f. (f, none);
  accepted = λ f. f.0;
  durable = λ f. f.2;
  flushed = λ f. f.1;
  accepted-write = λ f b h. refl;
  flushed-flush = λ f h. refl;
  accepted-flush = λ f h. refl;
  accepted-sync = λ f h. refl;
  durable-sync = λ f h. refl;
}

abbrev one_request : Commit.Wal byte_sum good_file
one_request = record { file = ([], [], []); pending = (1 ∷ 2 ∷ []) ∷ []; closed = false }

commit_round-durable_example :
    (good_file.accepted
        (Commit.answer_batch byte_sum good_file one_request ((1 ∷ 2 ∷ []) ∷ [])).0.file
      ≡ log_bytes byte_sum ((1 ∷ 2 ∷ []) ∷ []))
    × (read_all byte_sum (
          good_file.durable
            (Commit.answer_batch byte_sum good_file one_request ((1 ∷ 2 ∷ []) ∷ [])).0.file)
        ≡ some ((1 ∷ 2 ∷ []) ∷ [], none))
unfolding Commit.commit_round Commit.answer_batch Commit.commit_batch Commit.sync_batch
    Commit.write_batch Commit.write_record Commit.◌then_do◌ log_bytes
commit_round-durable_example =
    commit_round-durable byte_sum good_file one_request
      (Commit.answer_batch byte_sum good_file one_request ((1 ∷ 2 ∷ []) ∷ [])).0
      (Commit.answer_batch byte_sum good_file one_request ((1 ∷ 2 ∷ []) ∷ [])).1 [] 0 refl
      ((omega arith, omega arith), tt) refl refl

contains-add_all_example :
    Bloom.contains (add_all (Bloom.new ten_bits 3 1) ((97 ∷ []) ∷ (112 ∷ []) ∷ [])) (112 ∷ [])
    ≡ true
contains-add_all_example =
    contains-add_all (Bloom.new ten_bits 3 1) ((97 ∷ []) ∷ (112 ∷ []) ∷ []) 1 (112 ∷ [])
      (new-IsValid ten_bits 3 (omega arith)) refl

put-Represents_example :
    Represents
      (Skiplist.put Skiplist.new (true ∷ false ∷ []) (97 ∷ []) (1 ∷ []) 5)
      (upsert (live (97 ∷ []) (1 ∷ []) 5) [])
put-Represents_example =
    put-Represents Skiplist.new [] (97 ∷ []) Represents-new (true ∷ false ∷ []) (1 ∷ []) 5

-- A memtable with one entry.
abbrev one_entry : Skiplist.Skiplist
one_entry = Skiplist.put Skiplist.new (true ∷ false ∷ []) (97 ∷ []) (1 ∷ []) 5

one_entry-Represents : Represents one_entry (upsert (live (97 ∷ []) (1 ∷ []) 5) [])
one_entry-Represents =
    put-Represents Skiplist.new [] (97 ∷ []) Represents-new (true ∷ false ∷ []) (1 ∷ []) 5

delete-Represents_example : Represents (Skiplist.delete one_entry [] (97 ∷ []) 6) (
    upsert
      (tombstone (97 ∷ []) 6 (find (97 ∷ []) (upsert (live (97 ∷ []) (1 ∷ []) 5) [])))
      (upsert (live (97 ∷ []) (1 ∷ []) 5) []))
delete-Represents_example =
    delete-Represents one_entry (upsert (live (97 ∷ []) (1 ∷ []) 5) []) (97 ∷ [])
      one_entry-Represents [] 6

get-find_example :
    Skiplist.get one_entry (97 ∷ []) ≡ find (97 ∷ []) (upsert (live (97 ∷ []) (1 ∷ []) 5) [])
get-find_example =
    get-find one_entry (upsert (live (97 ∷ []) (1 ∷ []) 5) []) (97 ∷ []) one_entry-Represents

scan-range_example :
    Skiplist.scan one_entry (65 ∷ []) (112 ∷ []) 3
    ≡ limited 3 0 (until (112 ∷ []) (from (65 ∷ []) (upsert (live (97 ∷ []) (1 ∷ []) 5) [])))
scan-range_example =
    scan-range one_entry (upsert (live (97 ∷ []) (1 ∷ []) 5) []) one_entry-Represents (65 ∷ [])
      (112 ∷ []) 3

abbrev fruit : List Entry
fruit = apple ∷ pear ∷ []

fruit-Fits : Fits fruit
unfolding data_block entry_bytes put_uint32 put_uint64 index_len index_of
fruit-Fits = record {
  storable =
      ((omega arith, omega arith, omega arith), ((omega arith, omega arith, omega arith), tt));
  data_fits = omega arith;
  index_fits = omega arith;
  count_fits = omega arith;
}

fruit-IsOrdered : IsOrdered fruit
unfolding key_ltb
fruit-IsOrdered = ((refl, tt), (tt, tt))

open_reader-build_example : open_reader ten_bits (build fruit) ≡ ok (reader_of ten_bits fruit)
open_reader-build_example = open_reader-build ten_bits fruit fruit-Fits

get-build_example : Reader.get (reader_of ten_bits fruit) (112 ∷ []) ≡ ok (find (112 ∷ []) fruit)
get-build_example = get-build ten_bits fruit fruit-Fits fruit-IsOrdered (112 ∷ [])

scan-limit_example :
    Reader.scan (reader_of ten_bits fruit) (98 ∷ []) 1 ≡ ok (take 1 (from (98 ∷ []) fruit))
unfolding from key_ltb
scan-limit_example = scan-limit ten_bits fruit fruit-Fits (98 ∷ []) 1 (omega arith) (omega arith)

scan-overrun_example :
    (extra : Entry) × (more : List Entry) × (Reader.scan (reader_of ten_bits fruit) [] 0
      ≡ ok (fruit ++ extra ∷ more))
    × (extra.key ≡ apple.key)
    × (extra.value ≡ [])
unfolding from key_ltb
scan-overrun_example = scan-overrun ten_bits fruit fruit-Fits apple (pear ∷ []) [] refl refl

-- A file as what is durable, what a flush has handed on since, and what is still in the buffer.
abbrev buffered_file : LogFile
buffered_file = record {
  File = Bytes × Bytes × Bytes;
  IoError = ℕ;
  write = λ f b. ((f.0, f.1, f.2 ++ b), none);
  flush = λ f. ((f.0, f.1 ++ f.2, []), none);
  sync = λ f. ((f.0 ++ f.1, [], f.2), none);
  close_file = λ f. (f, none);
  accepted = λ f. f.0 ++ (f.1 ++ f.2);
  durable = λ f. f.0;
  flushed = λ f. f.0 ++ f.1;
  accepted-write = λ f b h. rw (append_assoc f.0 (f.1 ++ f.2) b, append_assoc f.1 f.2 b) refl;
  flushed-flush = λ f h. refl;
  accepted-flush = λ f h. rw append-nil refl;
  accepted-sync = λ f h. append_assoc f.0 f.1 f.2;
  durable-sync = λ f h. refl;
}

-- It never breaks.
abbrev buffered_file-Crashes : Crashes buffered_file
buffered_file-Crashes = record {
  Broken = λ f. ⊥;
  accepted-durable = λ f. (f.1 ++ f.2, refl);
  taken-write = λ f b. (
    b,
    [],
    sym (append-nil b),
    rw (append_assoc f.0 (f.1 ++ f.2) b, append_assoc f.1 f.2 b) refl,
  );
  write-Broken = λ f b e h. cc;
  Broken-write = λ f b broken. absurd broken;
  accepted-flushed = λ f. rw append-nil refl;
  accepted-synced = λ f. append_assoc f.0 f.1 f.2;
  durable-write = λ f b. ([], sym (append-nil f.0));
  durable-flush = λ f. ([], sym (append-nil f.0));
  durable-synced = λ f. (f.1, refl);
}

abbrev empty_log : Commit.Wal byte_sum buffered_file
empty_log = record { file = ([], [], []); pending = []; closed = false }

-- Two requests, a round, and one that no round takes.
abbrev events : List Happens
events = arrives (1 ∷ 2 ∷ []) ∷ arrives (3 ∷ []) ∷ wakes ∷ arrives (4 ∷ []) ∷ []

run-durable_example :
    (recovered : List Bytes) × (read_all byte_sum
        (buffered_file.durable (run byte_sum buffered_file empty_log events).0.file)
      ≡ some ([] ++ recovered, none))
    × Within
        (acked byte_sum buffered_file (run byte_sum buffered_file empty_log events).1)
        recovered
unfolding log_bytes
run-durable_example =
    run-durable byte_sum buffered_file buffered_file-Crashes empty_log [] events refl refl tt tt
      ((omega arith, omega arith), ((omega arith, omega arith), ((omega arith, omega arith), tt)))

-- A record that follows a torn one is not read back: its first bytes are taken for the missing data.
torn_then_appended :
    read_all byte_sum (
      log_bytes byte_sum ((1 ∷ 2 ∷ []) ∷ [])
      ++ (take 9 (record_bytes byte_sum (3 ∷ 4 ∷ [])) ++ record_bytes byte_sum (5 ∷ 6 ∷ [])))
    ≡ some ((1 ∷ 2 ∷ []) ∷ [], some checksum_mismatch)
unfolding read_all Wal.read_loop Wal.read_round Wal.check_header Wal.check_data read_full log_bytes
    record_bytes header put_uint32 uint32
torn_then_appended = refl
