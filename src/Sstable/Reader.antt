-- ===== src/Sstable/Reader.antt =====
-- internal/storage/sstable/sstable.go: the reader of a table.
use Prim.Native.Nat.{Ordering}
use on_cloud_kv.Prelude.{
  ℕ, zero, suc, ◌+◌, ◌-◌, ◌/◌, ◌^◌, true, false, ◌&&◌, Option, none, some, List, [], ◌∷◌, ◌++◌, map,
  ltb, leb, ◌==◌, length, get_elem?, drop, read_full, if◌then◌else◌, ◌>>=◌,
}
use on_cloud_kv.Bytes.{Bytes, uint32, uint64}
use on_cloud_kv.Keys.{Key, key_ltb, key_eqb}
use on_cloud_kv.Entry.{Entry}
use on_cloud_kv.Bloom
use on_cloud_kv.Bloom.{Filter, Sizing}
use on_cloud_kv.Bloom.Member.{add_all}
use on_cloud_kv.Sstable.{IndexEntry, magic, footer_size}

-- A call returns, fails with an error, or panics (a slice out of range). `out_of_fuel` is the model's
-- own: the fuel of a loop was too little.
pub data Outcome {ℓ} (A : Type ℓ) : Type ℓ where
  ok : A → Outcome A
  err panic out_of_fuel : Outcome A

pub record Reader : Type 0 where
  pub file : Bytes
  pub index : List IndexEntry
  pub filter : Filter
  pub count : ℕ

-- What a round of the loop of `loadIndex` meets.
pub data IndexRound : Type 0 where
  end cut : IndexRound
  index_read : IndexEntry → Bytes → IndexRound

unfoldable pub or_cut : Option IndexRound → IndexRound
or_cut none = cut
or_cut (some r) = r

-- The length, the key and the offset; a slice past the end of the buffer panics.
unfoldable pub index_fields : Bytes → IndexRound
unfolding or_cut
index_fields buf = or_cut (do
  (len, buf1) ← read_full 4 buf
  (key, buf2) ← read_full (uint32 len) buf1
  (word, rest) ← read_full 8 buf2
  some (index_read (record { key = key; offset = uint64 word }) rest))

-- One round of the loop of `loadIndex`.
unfoldable pub index_round : Bytes → IndexRound
index_round [] = end
index_round (b ∷ buf) = index_fields (b ∷ buf)

-- The loop of `loadIndex`, with fuel for its rounds.
unfoldable pub parse_index : ℕ → List IndexEntry → Bytes → Outcome (List IndexEntry)
parse_index zero index buf = out_of_fuel
parse_index (suc fuel) index buf = elim (index_round buf) [
  | end ↦ ok index
  | cut ↦ panic
  | index_read ie rest ↦ parse_index fuel (index ++ ie ∷ []) rest
]

-- `buildBloom`, on a reader that has its index.
unfoldable pub with_filter : Sizing → Bytes → ℕ → Outcome (List IndexEntry) → Outcome Reader
with_filter z file count (ok index) = ok (record {
  file = file;
  index = index;
  filter =
      add_all (Bloom.new z (count + 1) z.one_percent) (map (λ (ie : IndexEntry). ie.key) index);
  count = count;
})
with_filter z file count err = err
with_filter z file count panic = panic
with_filter z file count out_of_fuel = out_of_fuel

-- The index block that the footer points to: its offset is an int64, and seeking to a negative one or
-- reading past the end is an error. Each round takes at least one byte.
unfoldable pub load_block : ℕ → Option (Bytes × Bytes) → Outcome (List IndexEntry)
load_block offset none = err
load_block offset (some (buf, _)) =
    if leb (2 ^ 63) offset then err else parse_index (suc (length buf)) [] buf

unfoldable pub load_footer : Sizing → Bytes → Bytes → Outcome Reader
load_footer z file ftr =
    if uint64 (drop 16 ftr) == magic
    then with_filter z file (uint32 (drop 12 ftr))
        (load_block (uint64 ftr) (read_full (uint32 (drop 8 ftr)) (drop (uint64 ftr) file)))
    else err

-- `OpenReader`: `loadIndex`, then `buildBloom`.
unfoldable pub open_reader : Sizing → Bytes → Outcome Reader
open_reader z file =
    if ltb (length file) footer_size
    then err
    else load_footer z file (drop (length file - footer_size) file)

unfoldable pub uint8 : Bytes → ℕ
uint8 [] = 0
uint8 (b ∷ _) = b

unfoldable pub entry_of : Option (Entry × Bytes) → Outcome (Option Entry)
entry_of none = err
entry_of (some (e, _)) = ok (some e)

-- How the key at a place in the index compares to a key; a read past the index would panic, and none
-- is made.
unfoldable pub compare_at : List IndexEntry → Key → ℕ → Ordering
compare_at index key mid = elim (get_elem? index mid) [
  | none ↦ Ordering.gt
  | some ie ↦
      if key_eqb ie.key key
      then Ordering.eq
      else if key_ltb ie.key key
      then Ordering.lt
      else Ordering.gt
]

-- `readEntry`: the entry and what follows it, or nothing if the file ends before it does.
unfoldable pub read_entry : Bytes → Option (Entry × Bytes)
unfolding uint8
read_entry rd = do
  (key_len, rd1) ← read_full 4 rd
  (key, rd2) ← read_full (uint32 key_len) rd1
  (value_len, rd3) ← read_full 4 rd2
  (value, rd4) ← read_full (uint32 value_len) rd3
  (tail, rest) ← read_full 9 rd4
  some (
    record { key = key; value = value; version = uint64 tail; deleted = uint8 (drop 8 tail) == 1 },
    rest,
  )

-- `readAt`
unfoldable pub read_at : Bytes → ℕ → Outcome (Option Entry)
unfolding entry_of
read_at file offset = if leb (2 ^ 63) offset then err else entry_of (read_entry (drop offset file))

-- The binary search of `Get`. `hi` is the source's less one, so that an empty range is `hi ≤ lo`.
-- Each round narrows the range.
unfoldable pub search_index : List IndexEntry → Key → ℕ → ℕ → ℕ → Outcome (Option ℕ)
search_index index key zero lo hi = out_of_fuel
search_index index key (suc fuel) lo hi = elim (ltb lo hi) [
  | false ↦ ok none
  | true ↦
      let mid = (lo + hi - 1) / 2 in
      elim (compare_at index key mid) [
        | Ordering.eq ↦ ok (some mid)
        | Ordering.lt ↦ search_index index key fuel (mid + 1) hi
        | Ordering.gt ↦ search_index index key fuel lo mid
      ]
]

unfoldable pub fetch_at : Bytes → Option IndexEntry → Outcome (Option Entry)
fetch_at file none = panic
fetch_at file (some ie) = read_at file ie.offset

unfoldable pub fetch : Reader → Outcome (Option ℕ) → Outcome (Option Entry)
fetch r (ok none) = ok none
fetch r (ok (some idx)) = fetch_at r.file (get_elem? r.index idx)
fetch r err = err
fetch r panic = panic
fetch r out_of_fuel = out_of_fuel

-- `Get`
unfoldable pub get : Reader → Key → Outcome (Option Entry)
get r key =
    if Bloom.contains r.filter key
    then fetch r (search_index r.index key (suc (length r.index)) 0 (length r.index))
    else ok none

-- `for idx < len(r.index) && r.index[idx].Key < start { idx++ }`: the index from there on
unfoldable pub index_from : Key → List IndexEntry → List IndexEntry
index_from start [] = []
index_from start (ie ∷ index) =
    let rest = index_from start index in if key_ltb ie.key start then rest else ie ∷ index

-- The loop of `Scan`, with fuel: it ends at the limit, or where no entry can be read.
unfoldable pub read_loop : ℕ → ℕ → List Entry → Bytes → Outcome (List Entry)
read_loop zero limit results rd = out_of_fuel
read_loop (suc fuel) limit results rd = elim (ltb 0 limit && leb limit (length results)) [
  | true ↦ ok results
  | false ↦ elim (read_entry rd) [
    | none ↦ ok results
    | some (e, rest) ↦ read_loop fuel limit (results ++ e ∷ []) rest
  ]
]

unfoldable pub scan_at : Bytes → ℕ → List IndexEntry → Outcome (List Entry)
scan_at file limit [] = ok []
scan_at file limit (ie ∷ _) =
    if leb (2 ^ 63) ie.offset
    then err
    else read_loop (suc (length file)) limit [] (drop ie.offset file)

-- `Scan`
unfoldable pub scan : Reader → Key → ℕ → Outcome (List Entry)
scan r start limit = scan_at r.file limit (index_from start r.index)
