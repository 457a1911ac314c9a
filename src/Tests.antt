-- ===== src/Tests.antt =====
-- The theorems at concrete inputs: the parameters and the data that the examples share.
pub mod Storage
pub mod Service
pub mod Gateway
pub mod Start
use on_cloud_kv.Prelude.{
  ℕ, suc, zero, ◌+◌, ◌*◌, ◌%◌, ◌^◌, ◌<◌, ◌≡◌, refl, Bool, true, false, Option, none, some, List, [],
  ◌∷◌, ◌++◌, arith, length, read_full, read_full-append, ◌>>=◌,
}
use on_cloud_kv.Bytes.{Bytes}
use on_cloud_kv.Keys.{Key}
use on_cloud_kv.Entry.{Entry}
use on_cloud_kv.Bloom.{Sizing}
use on_cloud_kv.Skiplist
use on_cloud_kv.Skiplist.Invariant.{Represents-new}
use on_cloud_kv.Engine.{Engine, Journal, WalRecord, Op, op_put, op_delete, op_other}
use on_cloud_kv.Engine.Reads.{Stores}

-- A checksum: the sum of the bytes.
abbrev pub byte_sum : Bytes → ℕ
byte_sum [] = 0
byte_sum (b ∷ bs) = (b + byte_sum bs) % 2 ^ 32

-- Ten bits an item.
abbrev pub ten_bits : Sizing
ten_bits = record {
  Rate = ℕ;
  optimal_m = λ n p. n * 10;
  round_k = λ m n. 7;
  one_percent = 1;
  optimal_m_pos = λ n h. omega arith;
}

abbrev pub apple : Entry
apple = record { key = 97 ∷ []; value = 1 ∷ []; version = 5; deleted = false }

abbrev pub pear : Entry
pear = record { key = 112 ∷ []; value = 2 ∷ 3 ∷ []; version = 6; deleted = true }

-- A journal that never fails.
abbrev pub list_journal : Journal
list_journal = record { Log = List Bytes; IoError = ℕ; append = λ l d. (l ++ d ∷ [], none) }

abbrev pub op_code : Op → ℕ
op_code op_put = 0
op_code op_delete = 1
op_code op_other = 2

abbrev pub op_of : ℕ → Op
op_of zero = op_put
op_of (suc zero) = op_delete
op_of (suc (suc n)) = op_other

abbrev pub encode_record : WalRecord → Bytes
encode_record rec = op_code rec.op ∷ rec.version ∷ length rec.key ∷ (rec.key ++ rec.value)

abbrev pub decode_fields : ℕ → ℕ → Option (Bytes × Bytes) → Option WalRecord
decode_fields op version none = none
decode_fields op version (some (k, v)) =
    some (record { op = op_of op; key = k; value = v; version = version })

abbrev pub decode_record : Bytes → Option WalRecord
decode_record (op ∷ version ∷ n ∷ rest) = decode_fields op version (read_full n rest)
decode_record _ = none

pub decode-encode : (rec : WalRecord) → decode_record (encode_record rec) ≡ some rec
decode-encode rec =
    rw (read_full-append rec.key rec.value (length rec.key) refl)
      (op_back rec.op rec.key rec.value rec.version)
  where
    op_back :
        (op : Op) (k v : Bytes) (version : ℕ)
        → ◌≡◌ {A = Option WalRecord}
            (some (record { op = op_of (op_code op); key = k; value = v; version = version }))
            (some (record { op = op; key = k; value = v; version = version }))
    op_back op_put k v version = refl
    op_back op_delete k v version = refl
    op_back op_other k v version = refl

-- An engine at its start, on an empty directory.
abbrev pub empty_engine : Engine (List Bytes)
empty_engine = record {
  memtable = Skiplist.new;
  immutable = none;
  wal = [];
  tables = [];
  disk = λ p. none;
  max_mem = 100;
  flush_ch = false;
}

pub empty_engine-Stores : Stores empty_engine [] [] []
empty_engine-Stores = record { in_memory = Represents-new; in_pending = refl; on_disk = tt }
