-- ===== src/Sstable/Rounds.antt =====
-- internal/storage/sstable/sstable.go: the loop of `Scan`, round by round.
use on_cloud_kv.Prelude.{
  ℕ, zero, suc, ◌+◌, ◌^◌, ◌≤◌, ◌<◌, ◌≡◌, refl, sym, ap, ◌∙◌, false, ◌&&◌, some, List, [], ◌∷◌, ◌++◌,
  append_assoc, append-nil, arith, length, length-append, drop, lt→leb_false, ◌==◌, ltb, leb,
  read_full, read_full-append, if◌then◌else◌, All, Bool-cases, inl, inr, ◌⊎◌, take,
}
use native.Mathlib.Nat.{zero-add, suc-add}
use on_cloud_kv.Bytes.{
  Bytes, put_uint32, put_uint64, uint32, uint64, uint32-put_uint32, length-put_uint32,
}
use on_cloud_kv.Keys.{Key, key_ltb}
use on_cloud_kv.Entry.{Entry}
use on_cloud_kv.Entries.{from}
use on_cloud_kv.Sstable.{entry_bytes, index_bytes, index_block, footer}
use on_cloud_kv.Sstable.Reader.{read_entry, uint8, index_from, read_loop, scan_at}
use on_cloud_kv.Sstable.Codec.{IsStorable, read_entry-entry_bytes}
use on_cloud_kv.Sstable.Total.{read_loop_step}
use on_cloud_kv.Sstable.Open.{data_block, index_of}

-- The limit leaves room for so many more.
abbrev pub Room : ℕ → ℕ → Type 0
Room limit n = (limit ≡ 0) ⊎ (n ≤ limit)

Room-open : (limit n : ℕ) → Room limit (suc n) → (ltb 0 limit && leb limit n) ≡ false
Room-open limit n (inl q) = rw q refl
Room-open limit n (inr le) = ground arith

Room-mono : (limit m n : ℕ) → m ≤ n → Room limit n → Room limit m
Room-mono limit m n le (inl q) = inl q
Room-mono limit m n le (inr r) = inr (omega arith)

pub read_loop_entries :
    (fuel limit : ℕ) (results es : List Entry) (rest : Bytes)
    → All IsStorable es
    → Room limit (length results + length es)
    → read_loop (length es + fuel) limit results (data_block es ++ rest)
      ≡ read_loop fuel limit (results ++ es) rest
unfolding data_block
read_loop_entries fuel limit results [] rest h r = rw (zero-add, append-nil)
read_loop_entries fuel limit results (e ∷ es) rest h r =
    let room : Room limit (suc (length results)) =
      Room-mono limit (suc (length results)) (length results + suc (length es)) (omega arith) r in
    let room' : Room limit (length (results ++ e ∷ []) + length es) =
      Room-mono limit (length (results ++ e ∷ []) + length es) (length results + suc (length es))
        (omega (arith, length-append results (e ∷ []))) r in
    rw (suc-add, append_assoc)
      (read_loop_step (length es + fuel) limit results (entry_bytes e ++ (data_block es ++ rest)) e
          (data_block es ++ rest) (Room-open limit (length results) room)
          (read_entry-entry_bytes e (data_block es ++ rest) h.0)
        ∙ read_loop_entries fuel limit (results ++ e ∷ []) es rest h.1 room'
        ∙ rw append_assoc)

-- The entries before a start key, and where the index goes on behind them.
pub record Skips (start : Key) (off : ℕ) (es : List Entry) : Type 0 where
  pub before : List Entry
  pub split : es ≡ before ++ from start es
  pub goes_on :
      index_from start (index_of off es)
      ≡ index_of (off + length (data_block before)) (from start es)

pub index_from-Skips : (start : Key) (off : ℕ) (es : List Entry) → Skips start off es
unfolding index_from index_of data_block from
index_from-Skips start off [] = record { before = []; split = refl; goes_on = refl }
index_from-Skips start off (e ∷ es) = elim (Bool-cases (key_ltb e.key start)) [
  | inl lt ↦
      let s = index_from-Skips start (off + length (entry_bytes e)) es in
      let there : off + length (entry_bytes e) + length (data_block s.before)
          ≡ off + length (entry_bytes e ++ data_block s.before) =
        omega (arith, length-append (entry_bytes e) (data_block s.before)) in
      record {
        before = e ∷ s.before;
        split = rw lt (ap (λ xs. e ∷ xs) s.split);
        goes_on = rw lt (s.goes_on ∙ ap (λ n. index_of n (from start es)) there);
      }
  | inr ge ↦
      let same_place : off ≡ off + 0 = omega arith in
      record {
        before = [];
        split = rw ge;
        goes_on = rw ge (ap (λ n. index_of n (e ∷ es)) same_place);
      }
]

pub data_block-append :
    (xs ys : List Entry) → data_block (xs ++ ys) ≡ data_block xs ++ data_block ys
unfolding data_block
data_block-append [] ys = refl
data_block-append (x ∷ xs) ys = rw (data_block-append xs ys, append_assoc)

pub length-data_block : (es : List Entry) → length es ≤ length (data_block es)
unfolding data_block entry_bytes
length-data_block [] = omega arith
length-data_block (e ∷ es) =
    let rest =
      e.key
      ++ (put_uint32 (length e.value)
          ++ (e.value ++ (put_uint64 e.version ++ (if e.deleted then 1 else 0) ∷ []))) in
    omega (
      arith,
      length-data_block es,
      length-append (put_uint32 (length e.key) ++ rest) (data_block es),
      length-append (put_uint32 (length e.key)) rest,
      length-put_uint32 (length e.key),
    )

pub All-prefix : (P : Entry → Type 0) (xs ys : List Entry) → All P (xs ++ ys) → All P xs
All-prefix P [] ys a = tt
All-prefix P (x ∷ xs) ys a = (a.0, All-prefix P xs ys a.1)

pub take-drop : (n : ℕ) (xs : List Entry) → xs ≡ take n xs ++ drop n xs
take-drop zero xs = refl
take-drop (suc n) [] = refl
take-drop (suc n) (x ∷ xs) = ap (λ ys. x ∷ ys) (take-drop n xs)

pub All-suffix : (P : Entry → Type 0) (xs ys : List Entry) → All P (xs ++ ys) → All P ys
All-suffix P [] ys a = a
All-suffix P (x ∷ xs) ys a = All-suffix P xs ys a.1

pub scan_at_lem :
    (file : Bytes) (limit off : ℕ) (x : Entry) (xs : List Entry)
    → off < 2 ^ 63
    → scan_at file limit (index_of off (x ∷ xs))
      ≡ read_loop (suc (length file)) limit [] (drop off file)
unfolding scan_at index_of
scan_at_lem file limit off x xs h = rw (lt→leb_false (2 ^ 63) off h)

pub read_full-some :
    (n : ℕ) (xs : Bytes) → n ≤ length xs → (p : Bytes × Bytes) × (read_full n xs ≡ some p)
unfolding read_full
read_full-some zero xs h = (([], xs), refl)
read_full-some (suc n) [] h = absurd (omega arith)
read_full-some (suc n) (x ∷ xs) h =
    let ((ys, rest), q) = read_full-some n xs (omega arith) in ((x ∷ ys, rest), rw q)

zero_word : uint32 (put_uint32 0) ≡ 0
unfolding uint32 put_uint32
zero_word = refl

-- Read as an entry, the first entry of an index is its key with an empty value, as its offset is 0.
pub index_as_entry :
    (k : Key) (rest tail after : Bytes)
    → length k < 2 ^ 32
    → read_full 9 (put_uint32 0 ++ rest) ≡ some (tail, after)
    → read_entry (put_uint32 (length k) ++ (k ++ (put_uint32 0 ++ (put_uint32 0 ++ rest))))
      ≡ some (
        record { key = k; value = []; version = uint64 tail; deleted = uint8 (drop 8 tail) == 1 },
        after,
      )
unfolding read_entry
index_as_entry k rest tail after hk q =
    let r3 = put_uint32 0 ++ rest in
    let r2 = put_uint32 0 ++ r3 in
    rw (read_full-append (put_uint32 (length k)) (k ++ r2) 4 (sym (length-put_uint32 (length k)))) (
      rw (uint32-put_uint32 (length k) hk, read_full-append k r2 (length k) refl)
        (rw (read_full-append (put_uint32 0) r3 4 (sym (length-put_uint32 0)))
          (rw (zero_word, read_full-append [] r3 0 refl) (rw q))))

pub index_head :
    (x : Entry) (tail : List Entry) (ftr : Bytes)
    → index_block (index_of 0 (x ∷ tail)) ++ ftr
      ≡ put_uint32 (length x.key)
        ++ (x.key
            ++ (put_uint32 0
                ++ (put_uint32 0 ++ (index_block (index_of (length (entry_bytes x)) tail) ++ ftr))))
unfolding index_of index_block index_bytes put_uint64
index_head x tail ftr = simp (append_assoc, zero-add)

pub length-footer : (a b c : ℕ) → length (footer a b c) ≡ 24
unfolding footer put_uint64 put_uint32
length-footer a b c = refl
