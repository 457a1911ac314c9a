-- ===== src/Entry.antt =====
-- The record that the memtable, the tables and the engine store. skiplist.Entry, sstable.Entry and
-- storage.Entry have the same fields and are copied field by field (`toEntry`), so one type stands for
-- the three. A version is the bit pattern of an int64, a number below 2 ^ 64.
use on_cloud_kv.Prelude.{ℕ, ◌+◌, ◌%◌, ◌^◌, Bool, false, [], ltb}
use on_cloud_kv.Bytes.{Bytes}
use on_cloud_kv.Keys.{Key}

pub record Entry : Type 0 where
  pub key : Key
  pub value : Bytes
  pub version : ℕ
  pub deleted : Bool

-- Entry{}
abbrev pub empty_entry : Entry
empty_entry = record { key = []; value = []; version = 0; deleted = false }

-- a < b on int64, over the bit patterns
unfoldable pub int64_ltb : ℕ → ℕ → Bool
int64_ltb a b = ltb ((a + 2 ^ 63) % 2 ^ 64) ((b + 2 ^ 63) % 2 ^ 64)
