-- ===== src/Sstable/Codec.antt =====
-- internal/storage/sstable/sstable.go: what `Write` writes, `readEntry` reads.
use on_cloud_kv.Prelude.{
  ℕ, ◌^◌, ◌<◌, ◌≡◌, refl, sym, Bool, true, false, some, [], ◌∷◌, ◌++◌, append_assoc, arith, length,
  drop, ◌==◌, read_full-append, if◌then◌else◌,
}
use on_cloud_kv.Bytes.{
  Bytes, put_uint32, put_uint64, uint64, uint32-put_uint32, uint64-put_uint64, length-put_uint32,
  length-put_uint64,
}
use on_cloud_kv.Entry.{Entry}
use on_cloud_kv.Sstable.{IndexEntry, entry_bytes, index_bytes}
use on_cloud_kv.Sstable.Reader.{read_entry, uint8, index_fields, index_round, index_read}

-- An entry whose lengths fit their 32-bit fields, and whose version is a 64-bit pattern.
abbrev pub IsStorable : Entry → Type 0
IsStorable e = (length e.key < 2 ^ 32) × (length e.value < 2 ^ 32) × (e.version < 2 ^ 64)

tail_fields :
    (version : ℕ) (d : Bool)
    → version < 2 ^ 64
    → (uint64 (put_uint64 version ++ (if d then 1 else 0) ∷ []) ≡ version)
      × ((uint8 (drop 8 (put_uint64 version ++ (if d then 1 else 0) ∷ [])) == 1) ≡ d)
unfolding uint8 uint64 put_uint64
tail_fields version true h = (omega arith, refl)
tail_fields version false h = (omega arith, refl)

length-tail :
    (version : ℕ) (d : Bool) → length (put_uint64 version ++ (if d then 1 else 0) ∷ []) ≡ 9
unfolding put_uint64
length-tail version d = refl

entry_bytes-append :
    (e : Entry) (rest : Bytes)
    → entry_bytes e ++ rest
      ≡ put_uint32 (length e.key)
        ++ (e.key
            ++ (put_uint32 (length e.value)
                ++ (e.value
                    ++ ((put_uint64 e.version ++ (if e.deleted then 1 else 0) ∷ []) ++ rest))))
unfolding entry_bytes
entry_bytes-append e rest = simp append_assoc

-- An entry that was written is read back, whatever follows it.
pub read_entry-entry_bytes :
    (e : Entry) (rest : Bytes) → IsStorable e → read_entry (entry_bytes e ++ rest) ≡ some (e, rest)
unfolding read_entry
read_entry-entry_bytes e rest (hk, hv, hver) =
    let tail = put_uint64 e.version ++ (if e.deleted then 1 else 0) ∷ [] in
    let r4 = tail ++ rest in
    let r3 = e.value ++ r4 in
    let r2 = put_uint32 (length e.value) ++ r3 in
    let r1 = e.key ++ r2 in
    rw (entry_bytes-append e rest) (
      rw
        (read_full-append (put_uint32 (length e.key)) r1 4 (sym (length-put_uint32 (length e.key))))
        (rw (uint32-put_uint32 (length e.key) hk, read_full-append e.key r2 (length e.key) refl)
          (rw
            (read_full-append (put_uint32 (length e.value)) r3 4
              (sym (length-put_uint32 (length e.value))))
            (rw
              (
                uint32-put_uint32 (length e.value) hv,
                read_full-append e.value r4 (length e.value) refl,
              )
              (rw (read_full-append tail rest 9 (sym (length-tail e.version e.deleted))) (
                rw (
                  (tail_fields e.version e.deleted hver).0,
                  (tail_fields e.version e.deleted hver).1,
                )))))))

index_bytes-append :
    (ie : IndexEntry) (rest : Bytes)
    → index_bytes ie ++ rest
      ≡ put_uint32 (length ie.key) ++ (ie.key ++ (put_uint64 ie.offset ++ rest))
unfolding index_bytes
index_bytes-append ie rest = simp append_assoc

index_round_word :
    (n : ℕ) (rest : Bytes)
    → index_round (put_uint32 n ++ rest) ≡ index_fields (put_uint32 n ++ rest)
unfolding index_round put_uint32
index_round_word n rest = refl

-- So is an entry of the index.
pub index_round-index_bytes :
    (ie : IndexEntry) (rest : Bytes)
    → length ie.key < 2 ^ 32
    → ie.offset < 2 ^ 64
    → index_round (index_bytes ie ++ rest) ≡ index_read ie rest
index_round-index_bytes ie rest hk ho =
    let r2 = put_uint64 ie.offset ++ rest in
    let r1 = ie.key ++ r2 in
    rw (index_bytes-append ie rest, index_round_word (length ie.key) r1)
      (unfold index_fields in
        (rw
          (read_full-append (put_uint32 (length ie.key)) r1 4
            (sym (length-put_uint32 (length ie.key))))
          (rw
            (uint32-put_uint32 (length ie.key) hk, read_full-append ie.key r2 (length ie.key) refl)
            (rw (read_full-append (put_uint64 ie.offset) rest 8 (sym (length-put_uint64 ie.offset)))
              (rw (uint64-put_uint64 ie.offset ho))))))
