-- ===== src/Wal.antt =====
-- internal/storage/wal/wal.go: the record format and the replay of the log file.
-- `crc` stands for hash/crc32's ChecksumIEEE. The file is the list of its bytes, and a read of it
-- fails only at its end.
pub mod Replay
pub mod Commit
pub mod Torn
pub mod Crashes
pub mod Rounds
pub mod History
use on_cloud_kv.Prelude.{
  ℕ, zero, suc, Option, none, some, List, [], ◌∷◌, ◌++◌, ◌==◌, length, drop, read_full,
  if◌then◌else◌,
}
use on_cloud_kv.Bytes.{Bytes, put_uint32, uint32}

pub data WalError : Type 0 where
  checksum_mismatch : WalError

abbrev pub record_header_size : ℕ
record_header_size = 8

-- What a round of `ReadAll`'s loop meets.
pub data Round : Type 0 where
  end corrupt : Round
  record_read : Bytes → Bytes → Round

module _ (crc : Bytes → ℕ) where
  unfoldable pub header : Bytes → Bytes
  header data_ = put_uint32 (length data_) ++ put_uint32 (crc data_)

  -- The bytes that `writeRecord` writes: the header, then the data.
  unfoldable pub record_bytes : Bytes → Bytes
  record_bytes data_ = header data_ ++ data_

  -- The data read after a header: its end, or a checksum to compare.
  unfoldable pub check_data : Bytes → Option (Bytes × Bytes) → Round
  check_data hdr none = end
  check_data hdr (some (data_, rest)) =
      if crc data_ == uint32 (drop 4 hdr) then record_read data_ rest else corrupt

  unfoldable pub check_header : Option (Bytes × Bytes) → Round
  check_header none = end
  check_header (some (hdr, f)) = check_data hdr (read_full (uint32 hdr) f)

  -- One round of the loop of `ReadAll`.
  unfoldable pub read_round : Bytes → Round
  read_round f = check_header (read_full record_header_size f)

  -- The loop of `ReadAll`, with fuel for its rounds. A short header or short data ends the replay
  -- with no error; data that does not fit its checksum ends it with `ErrChecksumMismatch`.
  unfoldable pub read_loop : ℕ → List Bytes → Bytes → Option (List Bytes × Option WalError)
  read_loop zero records f = none
  read_loop (suc n) records f = elim (read_round f) [
    | end ↦ some (records, none)
    | corrupt ↦ some (records, some checksum_mismatch)
    | record_read data_ rest ↦ read_loop n (records ++ data_ ∷ []) rest
  ]

  -- `ReadAll` of a file that exists. Each round takes at least the header's eight bytes.
  unfoldable pub read_all : Bytes → Option (List Bytes × Option WalError)
  read_all f = read_loop (suc (length f)) [] f

  -- The file after a list of records.
  unfoldable pub log_bytes : List Bytes → Bytes
  log_bytes [] = []
  log_bytes (d ∷ ds) = record_bytes d ++ log_bytes ds
