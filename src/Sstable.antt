-- ===== src/Sstable.antt =====
-- internal/storage/sstable/sstable.go: the file format of the tables and their writer.
-- A file is the list of its bytes. Calls of the operating system succeed, but for reads past the end;
-- a writer's buffer is part of its file.
pub mod Reader
pub mod Codec
pub mod Open
pub mod Search
pub mod Lookup
pub mod Total
pub mod Rounds
pub mod Scan
use on_cloud_kv.Prelude.{
  ℕ, ◌+◌, ◌<◌, ◌^◌, ◌%◌, Bool, List, [], ◌∷◌, ◌++◌, length, All, if◌then◌else◌,
}
use on_cloud_kv.Bytes.{Bytes, put_uint32, put_uint64}
use on_cloud_kv.Keys.{Key}
use on_cloud_kv.Entry.{Entry}

abbrev pub magic : ℕ
magic = 0x4f43_4b56_5353_5442

abbrev pub footer_size : ℕ
footer_size = 24

pub record IndexEntry : Type 0 where
  pub key : Key
  pub offset : ℕ

pub record Writer : Type 0 where
  pub file : Bytes
  pub index : List IndexEntry
  pub offset : ℕ
  pub count : ℕ

-- `NewWriter`
abbrev pub new_writer : Writer
new_writer = record { file = []; index = []; offset = 0; count = 0 }

-- The bytes of one entry, `rec` in `Write`.
unfoldable pub entry_bytes : Entry → Bytes
entry_bytes e =
    put_uint32 (length e.key)
    ++ (e.key
        ++ (put_uint32 (length e.value)
            ++ (e.value ++ (put_uint64 e.version ++ (if e.deleted then 1 else 0) ∷ []))))

-- `Write`
unfoldable pub write : Writer → Entry → Writer
write w e = record {
  file = w.file ++ entry_bytes e;
  index = w.index ++ record { key = e.key; offset = w.offset } ∷ [];
  offset = w.offset + length (entry_bytes e);
  count = w.count + 1;
}

-- The bytes of one index entry, `hdr` in `Close`.
unfoldable pub index_bytes : IndexEntry → Bytes
index_bytes ie = put_uint32 (length ie.key) ++ (ie.key ++ put_uint64 ie.offset)

-- The index block.
unfoldable pub index_block : List IndexEntry → Bytes
index_block [] = []
index_block (ie ∷ index) = index_bytes ie ++ index_block index

-- The second loop of `Close`.
unfoldable pub index_len : List IndexEntry → ℕ
index_len [] = 0
index_len (ie ∷ index) = (4 + length ie.key + 8) + index_len index

unfoldable pub footer : ℕ → ℕ → ℕ → Bytes
footer index_start len count =
    put_uint64 index_start ++ (put_uint32 len ++ (put_uint32 count ++ put_uint64 magic))

-- `Close`: the whole file.
unfoldable pub close : Writer → Bytes
close w = w.file ++ (index_block w.index ++ footer w.offset (index_len w.index) w.count)

-- `Write` of each entry in turn, as flush and compaction do.
unfoldable pub write_all : Writer → List Entry → Writer
write_all w [] = w
write_all w (e ∷ es) = write_all (write w e) es

unfoldable pub build : List Entry → Bytes
build es = close (write_all new_writer es)
