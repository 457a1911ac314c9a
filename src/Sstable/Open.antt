-- ===== src/Sstable/Open.antt =====
-- internal/storage/sstable/sstable.go: opening a table that a writer closed.
use on_cloud_kv.Prelude.{
  ℕ, zero, suc, ◌+◌, ◌-◌, ◌^◌, ◌≤◌, ◌<◌, ◌≡◌, refl, sym, ap, ◌∙◌, some, List, [], ◌∷◌, ◌++◌, map,
  append_assoc, append-nil, arith, length, length-append, drop, drop-append, read_full,
  read_full-append, All, le→ltb_false, lt→leb_false,
}
use native.Mathlib.Nat.{zero-add}
use on_cloud_kv.Bytes.{
  Bytes, put_uint32, put_uint64, uint32, uint64, length-put_uint32, length-put_uint64,
}
use on_cloud_kv.Entry.{Entry}
use on_cloud_kv.Bloom
use on_cloud_kv.Bloom.{Sizing}
use on_cloud_kv.Bloom.Member.{add_all}
use on_cloud_kv.Sstable.{
  Writer, IndexEntry, magic, entry_bytes, index_bytes, index_block, index_len, footer, write,
  write_all, close, build, new_writer,
}
use on_cloud_kv.Sstable.Reader.{
  Reader, ok, index_round, parse_index, with_filter, load_block, load_footer, open_reader,
}
use on_cloud_kv.Sstable.Codec.{IsStorable, index_round-index_bytes}

-- The data block of some entries.
unfoldable pub data_block : List Entry → Bytes
data_block [] = []
data_block (e ∷ es) = entry_bytes e ++ data_block es

-- The index of entries of which the first stands at an offset.
unfoldable pub index_of : ℕ → List Entry → List IndexEntry
index_of offset [] = []
index_of offset (e ∷ es) =
    record { key = e.key; offset = offset } ∷ index_of (offset + length (entry_bytes e)) es

write_all_lem :
    (w : Writer) (es : List Entry)
    → write_all w es ≡ record {
      file = w.file ++ data_block es;
      index = w.index ++ index_of w.offset es;
      offset = w.offset + length (data_block es);
      count = w.count + length es;
    }
unfolding write write_all data_block index_of
write_all_lem w [] =
    let file : w.file ≡ w.file ++ [] = sym (append-nil w.file) in
    let index : w.index ≡ w.index ++ [] = sym (append-nil w.index) in
    let offset : w.offset ≡ w.offset + 0 = omega arith in
    let count : w.count ≡ w.count + 0 = omega arith in
    λ i. record { file = file i; index = index i; offset = offset i; count = count i }
write_all_lem w (e ∷ es) =
    let file = append_assoc w.file (entry_bytes e) (data_block es) in
    let index =
      append_assoc w.index (record { key = e.key; offset = w.offset } ∷ [])
        (index_of (w.offset + length (entry_bytes e)) es) in
    let offset : (w.offset + length (entry_bytes e)) + length (data_block es)
        ≡ w.offset + length (entry_bytes e ++ data_block es) =
      omega (arith, length-append (entry_bytes e) (data_block es)) in
    let count : w.count + 1 + length es ≡ w.count + suc (length es) = omega arith in
    write_all_lem (write w e) es ∙ λ i. record {
      file = file i;
      index = index i;
      offset = offset i;
      count = count i;
    }

-- A table whose sizes fit the fields of its footer.
pub record Fits (es : List Entry) : Type 0 where
  pub storable : All IsStorable es
  pub data_fits : length (data_block es) < 2 ^ 63
  pub index_fits : index_len (index_of 0 es) < 2 ^ 32
  pub count_fits : length es < 2 ^ 32

pub build_lem :
    (es : List Entry)
    → build es
      ≡ data_block es
        ++ (index_block (index_of 0 es)
            ++ footer (length (data_block es)) (index_len (index_of 0 es)) (length es))
unfolding build close
build_lem es = ap close (write_all_lem new_writer es) ∙ simp zero-add

length-index_block : (index : List IndexEntry) → length (index_block index) ≡ index_len index
unfolding index_block index_len index_bytes
length-index_block [] = refl
length-index_block (ie ∷ index) = omega (
  arith,
  length-append (index_bytes ie) (index_block index),
  length-append (put_uint32 (length ie.key)) (ie.key ++ put_uint64 ie.offset),
  length-append ie.key (put_uint64 ie.offset),
  length-put_uint32 (length ie.key),
  length-put_uint64 ie.offset,
  length-index_block index,
)

abbrev IsIndexable : IndexEntry → Type 0
IsIndexable ie = (length ie.key < 2 ^ 32) × (ie.offset < 2 ^ 64)

parse_index_lem :
    (fuel : ℕ) (before index : List IndexEntry)
    → All IsIndexable index
    → index_len index < fuel
    → parse_index fuel before (index_block index) ≡ ok (before ++ index)
unfolding parse_index index_block index_len index_round
parse_index_lem zero before index h f = absurd (omega arith)
parse_index_lem (suc fuel) before [] h f = rw append-nil
parse_index_lem (suc fuel) before (ie ∷ index) h f =
    rw (index_round-index_bytes ie (index_block index) h.0.0 h.0.1, parse_index)
      (parse_index_lem fuel (before ++ ie ∷ []) index h.1 (omega arith)
        ∙ ap ok (append_assoc before (ie ∷ []) index))

index_of-IsIndexable :
    (offset : ℕ) (es : List Entry)
    → All IsStorable es
    → offset + length (data_block es) < 2 ^ 64
    → All IsIndexable (index_of offset es)
unfolding index_of data_block
index_of-IsIndexable offset [] h f = tt
index_of-IsIndexable offset (e ∷ es) h f = (
  (h.0.0, omega arith),
  index_of-IsIndexable (offset + length (entry_bytes e)) es h.1
      (omega (arith, length-append (entry_bytes e) (data_block es))),
)

-- The four fields of the footer, and the file before it.
footer_fields :
    (start len count : ℕ)
    → start < 2 ^ 64
    → len < 2 ^ 32
    → count < 2 ^ 32
    → (uint64 (footer start len count) ≡ start)
      × (uint32 (drop 8 (footer start len count)) ≡ len)
      × (uint32 (drop 12 (footer start len count)) ≡ count)
      × (uint64 (drop 16 (footer start len count)) ≡ magic)
      × (length (footer start len count) ≡ 24)
unfolding footer put_uint64 put_uint32 uint64 uint32
footer_fields start len count hs hl hc = (omega arith, omega arith, omega arith, refl, refl)

-- The reader of a table: its index, a filter of its keys, and the number of its entries.
abbrev pub reader_of : Sizing → List Entry → Reader
reader_of z es = record {
  file = build es;
  index = index_of 0 es;
  filter =
      add_all (Bloom.new z (length es + 1) z.one_percent)
        (map (λ (ie : IndexEntry). ie.key) (index_of 0 es));
  count = length es;
}

abbrev footer_of : List Entry → Bytes
footer_of es = footer (length (data_block es)) (index_len (index_of 0 es)) (length es)

footer_found :
    (es : List Entry)
    → Fits es
    → (24 ≤ length (build es)) × (drop (length (build es) - 24) (build es) ≡ footer_of es)
footer_found es fits =
    let front = data_block es ++ index_block (index_of 0 es) in
    let (_, _, _, _, size) =
      footer_fields (length (data_block es)) (index_len (index_of 0 es)) (length es)
        (omega (arith, fits.data_fits)) fits.index_fits fits.count_fits in
    let whole : build es ≡ front ++ footer_of es =
      build_lem es
      ∙ sym (append_assoc (data_block es) (index_block (index_of 0 es)) (footer_of es)) in
    let total : length (front ++ footer_of es) ≡ length front + 24 =
      omega (arith, length-append front (footer_of es), size) in
    let there : length front + 24 - 24 ≡ length front = omega arith in
    rw whole (omega (arith, total), rw (total, there) (drop-append front (footer_of es)))

block_found :
    (es : List Entry)
    → read_full (index_len (index_of 0 es)) (drop (length (data_block es)) (build es))
      ≡ some (index_block (index_of 0 es), footer_of es)
block_found es =
    rw (build_lem es, drop-append (data_block es) (index_block (index_of 0 es) ++ footer_of es))
      (read_full-append (index_block (index_of 0 es)) (footer_of es) (index_len (index_of 0 es))
        (sym (length-index_block (index_of 0 es))))

block_loaded :
    (es : List Entry)
    → Fits es
    → load_block (length (data_block es)) (some (index_block (index_of 0 es), footer_of es))
      ≡ ok (index_of 0 es)
unfolding load_block
block_loaded es fits = rw (lt→leb_false (2 ^ 63) (length (data_block es)) fits.data_fits) (
    parse_index_lem (suc (length (index_block (index_of 0 es)))) [] (index_of 0 es)
      (index_of-IsIndexable 0 es fits.storable (omega (arith, fits.data_fits)))
      (omega (arith, length-index_block (index_of 0 es))))

-- A table that was written and closed opens, if its sizes fit the fields of its footer: with the key
-- and the offset of every entry in the index, with all keys in the filter, and with the number of
-- the entries.
pub open_reader-build :
    (z : Sizing) (es : List Entry) → Fits es → open_reader z (build es) ≡ ok (reader_of z es)
unfolding open_reader load_footer with_filter
open_reader-build z es fits =
    let (start, len, count, mg, _) =
      footer_fields (length (data_block es)) (index_len (index_of 0 es)) (length es)
        (omega (arith, fits.data_fits)) fits.index_fits fits.count_fits in
    let (long, found) = footer_found es fits in
    rw (le→ltb_false (length (build es)) 24 long, found)
      (rw (mg, start, len, count, block_found es, block_loaded es fits))
