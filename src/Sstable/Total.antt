-- ===== src/Sstable/Total.antt =====
-- internal/storage/sstable/sstable.go: opening, reading and scanning end on any file.
use Prim.Native.Nat.{Ordering}
use on_cloud_kv.Prelude.{
  ltb→lt, ℕ, zero, suc, ◌+◌, ◌-◌, ◌/◌, ◌^◌, ◌≤◌, ◌<◌, ◌≡◌, refl, sym, ap, ◌∙◌, true, false, ◌&&◌,
  Option, none, some, List, [], ◌∷◌, ◌++◌, append_assoc, append-nil, arith, length, drop, get_elem?,
  ◌==◌, ltb, leb, read_full, length-read_full, ◌>>=◌, Bool-cases, inl, inr,
}
use on_cloud_kv.Bytes.{Bytes, uint32, uint64}
use on_cloud_kv.Keys.{Key}
use on_cloud_kv.Entry.{Entry}
use on_cloud_kv.Bloom
use on_cloud_kv.Bloom.{Sizing}
use on_cloud_kv.Sstable.{IndexEntry, magic, footer_size}
use on_cloud_kv.Sstable.Reader.{
  Outcome, ok, err, panic, out_of_fuel, Reader, IndexRound, end, cut, index_read, or_cut,
  index_fields, index_round, parse_index, with_filter, load_block, load_footer, open_reader,
  read_entry, read_at, entry_of, fetch_at, fetch, get, search_index, compare_at, index_from,
  read_loop, scan_at, scan,
}

-- A read of n bytes, and what is done with them.
read_then :
    {R : Type 0} (n : ℕ) (rd : Bytes) (k : Bytes × Bytes → Option R) (r : R) (left : ℕ)
    → (read_full n rd >>= k) ≡ some r
    → ((a b : Bytes) → k (a, b) ≡ some r → left ≤ length b)
    → n + left ≤ length rd
read_then n rd k r left h shrinks =
    elim (read_full n rd) as (λ o. read_full n rd ≡ o → (o >>= k) ≡ some r → n + left ≤ length rd) [
      | none ↦ λ q h. cc
      | some (a, b) ↦ λ q h. omega (arith, (length-read_full n rd a b q).1, shrinks a b h)
    ]
      refl h

same_rest :
    {e e' : Entry} (a b : Bytes)
    → ◌≡◌ {A = Option (Entry × Bytes)} (some (e', a)) (some (e, b))
    → length b ≤ length a
same_rest a b h = let q : a ≡ b = cc in rw q (omega arith)

-- An entry that is read takes at least its two lengths, its version and its flag.
pub read_entry-length :
    (rd : Bytes) (e : Entry) (rest : Bytes)
    → read_entry rd ≡ some (e, rest)
    → length rest < length rd
unfolding read_entry
read_entry-length rd e rest h =
    let all : 4 + length rest ≤ length rd =
      read_then 4 rd _ (e, rest) (length rest) h
        λ w1 rd1 h1.
          let k1 : uint32 w1 + length rest ≤ length rd1 =
            read_then (uint32 w1) rd1 _ (e, rest) (length rest) h1
              λ k rd2 h2.
                let k2 : 4 + length rest ≤ length rd2 =
                  read_then 4 rd2 _ (e, rest) (length rest) h2
                    λ w3 rd3 h3.
                      let k3 : uint32 w3 + length rest ≤ length rd3 =
                        read_then (uint32 w3) rd3 _ (e, rest) (length rest) h3
                          λ v rd4 h4.
                            let k4 : 9 + length rest ≤ length rd4 =
                              read_then 9 rd4 _ (e, rest) (length rest) h4
                                λ t rd5 h5. same_rest rd5 rest h5 in
                            omega arith in
                      omega arith in
                omega arith in
          omega arith in
    omega arith

pub read_loop_step :
    (fuel limit : ℕ) (results : List Entry) (rd : Bytes) (e : Entry) (rest : Bytes)
    → (ltb 0 limit && leb limit (length results)) ≡ false
    → read_entry rd ≡ some (e, rest)
    → read_loop (suc fuel) limit results rd ≡ read_loop fuel limit (results ++ e ∷ []) rest
unfolding read_loop
read_loop_step fuel limit results rd e rest more h = rw (read_loop, more, h)

pub read_loop_full :
    (fuel limit : ℕ) (results : List Entry) (rd : Bytes)
    → (ltb 0 limit && leb limit (length results)) ≡ true
    → read_loop (suc fuel) limit results rd ≡ ok results
unfolding read_loop
read_loop_full fuel limit results rd full = rw (read_loop, full)

-- The loop ends, and hands back what it had with what it read.
pub read_loop_total :
    (fuel limit : ℕ) (results : List Entry) (rd : Bytes)
    → length rd < fuel
    → (more : List Entry) × (read_loop fuel limit results rd ≡ ok (results ++ more))
unfolding read_loop
read_loop_total zero limit results rd f = absurd (omega arith)
read_loop_total (suc fuel) limit results rd f =
    elim (Bool-cases (ltb 0 limit && leb limit (length results))) [
      | inl full ↦ (
        [],
        read_loop_full fuel limit results rd full ∙ ap (λ r. ok r) (sym (append-nil results)),
      )
      | inr open_ ↦
          elim (read_entry rd)
              as (λ o.
                read_entry rd ≡ o
                → (more : List Entry) × (read_loop (suc fuel) limit results rd
                    ≡ ok (results ++ more))) [
                      | none ↦ λ e.
                          ([], rw (read_loop, open_, e) (ap (λ r. ok r) (sym (append-nil results))))
                      | some (x, rest) ↦ λ e.
                          let (more, q) =
                            read_loop_total fuel limit (results ++ x ∷ []) rest
                              (omega (arith, read_entry-length rd x rest e)) in
                          (
                            x ∷ more,
                            read_loop_step fuel limit results rd x rest open_ e
                                ∙ q
                                ∙ ap (λ r. ok r) (append_assoc results (x ∷ []) more),
                          )
                    ]
            refl
    ]

-- A call that ends, with a result, an error or a panic.
abbrev pub Ends {ℓ} : {A : Type ℓ} → Outcome A → Type 0
Ends (ok a) = Unit
Ends err = Unit
Ends panic = Unit
Ends out_of_fuel = ⊥

same_index :
    {ie ie' : IndexEntry} (a b : Bytes)
    → ◌≡◌ {A = Option IndexRound} (some (index_read ie' a)) (some (index_read ie b))
    → length b ≤ length a
same_index a b h = let q : a ≡ b = cc in rw q (omega arith)

or_cut-read :
    (o : Option IndexRound) (ie : IndexEntry) (rest : Bytes)
    → or_cut o ≡ index_read ie rest
    → o ≡ some (index_read ie rest)
unfolding or_cut
or_cut-read none ie rest h = cc
or_cut-read (some r) ie rest h = ap some h

-- A round of `loadIndex` takes at least a length and an offset.
index_round-length :
    (buf : Bytes) (ie : IndexEntry) (rest : Bytes)
    → index_round buf ≡ index_read ie rest
    → length rest < length buf
unfolding index_round index_fields
index_round-length [] ie rest h = cc
index_round-length (b ∷ buf) ie rest h =
    let r = index_read ie rest in
    let all : 4 + length rest ≤ length (b ∷ buf) =
      read_then 4 (b ∷ buf) _ r (length rest) (or_cut-read _ ie rest h) λ w1 rd1 h1.
        let k1 : uint32 w1 + length rest ≤ length rd1 =
          read_then (uint32 w1) rd1 _ r (length rest) h1 λ k rd2 h2.
            let k2 : 8 + length rest ≤ length rd2 =
              read_then 8 rd2 _ r (length rest) h2 λ w3 rd3 h3. same_index rd3 rest h3 in
            omega arith in
        omega arith in
    omega arith

parse_index-Ends :
    (fuel : ℕ) (index : List IndexEntry) (buf : Bytes)
    → length buf < fuel
    → Ends (parse_index fuel index buf)
unfolding parse_index
parse_index-Ends zero index buf f = absurd (omega arith)
parse_index-Ends (suc fuel) index buf f =
    elim (index_round buf) as (λ r. index_round buf ≡ r → Ends (parse_index (suc fuel) index buf)) [
      | end ↦ λ e. rw (parse_index, e) tt
      | cut ↦ λ e. rw (parse_index, e) tt
      | index_read ie rest ↦ λ e.
          rw (parse_index, e)
            (parse_index-Ends fuel (index ++ ie ∷ []) rest
              (omega (arith, index_round-length buf ie rest e)))
    ]
      refl

with_filter-Ends :
    (z : Sizing) (file : Bytes) (count : ℕ) (o : Outcome (List IndexEntry))
    → Ends o
    → Ends (with_filter z file count o)
unfolding with_filter
with_filter-Ends z file count (ok index) h = tt
with_filter-Ends z file count err h = tt
with_filter-Ends z file count panic h = tt
with_filter-Ends z file count out_of_fuel h = h

load_block-Ends : (offset : ℕ) (o : Option (Bytes × Bytes)) → Ends (load_block offset o)
unfolding load_block
load_block-Ends offset none = tt
load_block-Ends offset (some (buf, rest)) = elim (Bool-cases (leb (2 ^ 63) offset)) [
  | inl negative ↦ rw negative tt
  | inr fine ↦ rw fine (parse_index-Ends (suc (length buf)) [] buf (omega arith))
]

pub open_reader-Ends : (z : Sizing) (file : Bytes) → Ends (open_reader z file)
unfolding open_reader load_footer
open_reader-Ends z file = elim (Bool-cases (ltb (length file) footer_size)) [
  | inl short ↦ rw short tt
  | inr long ↦
      let ftr = drop (length file - footer_size) file in
      rw long (elim (Bool-cases (uint64 (drop 16 ftr) == magic)) [
        | inl right ↦ rw right (
            with_filter-Ends z file (uint32 (drop 12 ftr))
              (load_block (uint64 ftr) (read_full (uint32 (drop 8 ftr)) (drop (uint64 ftr) file)))
              (load_block-Ends (uint64 ftr)
                (read_full (uint32 (drop 8 ftr)) (drop (uint64 ftr) file))))
        | inr wrong ↦ rw wrong tt
      ])
]

entry_of-Ends : (o : Option (Entry × Bytes)) → Ends (entry_of o)
unfolding entry_of
entry_of-Ends none = tt
entry_of-Ends (some (e, rest)) = tt

fetch_at-Ends : (file : Bytes) (o : Option IndexEntry) → Ends (fetch_at file o)
unfolding fetch_at read_at
fetch_at-Ends file none = tt
fetch_at-Ends file (some ie) = elim (Bool-cases (leb (2 ^ 63) ie.offset)) [
  | inl negative ↦ rw negative tt
  | inr fine ↦ rw fine (entry_of-Ends (read_entry (drop ie.offset file)))
]

fetch-Ends : (r : Reader) (o : Outcome (Option ℕ)) → Ends o → Ends (fetch r o)
unfolding fetch
fetch-Ends r (ok none) h = tt
fetch-Ends r (ok (some idx)) h = fetch_at-Ends r.file (get_elem? r.index idx)
fetch-Ends r err h = tt
fetch-Ends r panic h = tt
fetch-Ends r out_of_fuel h = h

-- With more fuel than the range is long the binary search ends, in any index.
search_index-Ends :
    (index : List IndexEntry) (key : Key) (fuel lo hi : ℕ)
    → hi < lo + fuel
    → 0 < fuel
    → Ends (search_index index key fuel lo hi)
unfolding search_index
search_index-Ends index key zero lo hi h pos = omega arith
search_index-Ends index key (suc fuel) lo hi h pos = elim (Bool-cases (ltb lo hi)) [
  | inr done ↦ rw (search_index, done) tt
  | inl open_ ↦
      let mid = (lo + hi - 1) / 2 in
      let lt = ltb→lt lo hi open_ in
      elim (compare_at index key mid)
          as (λ o. compare_at index key mid ≡ o → Ends (search_index index key (suc fuel) lo hi)) [
            | Ordering.eq ↦ λ e. rw (search_index, open_, e) tt
            | Ordering.lt ↦ λ e.
                rw (search_index, open_, e)
                  (search_index-Ends index key fuel (mid + 1) hi (omega arith) (omega arith))
            | Ordering.gt ↦ λ e.
                rw (search_index, open_, e)
                  (search_index-Ends index key fuel lo mid (omega arith) (omega arith))
          ]
        refl
]

pub get-Ends : (r : Reader) (key : Key) → Ends (get r key)
unfolding get
get-Ends r key = elim (Bool-cases (Bloom.contains r.filter key)) [
  | inl in_ ↦ rw in_ (
      fetch-Ends r (search_index r.index key (suc (length r.index)) 0 (length r.index)) (
        search_index-Ends r.index key (suc (length r.index)) 0 (length r.index) (omega arith)
          (omega arith)))
  | inr out ↦ rw out tt
]

length-drop-le : (n : ℕ) (xs : Bytes) → length (drop n xs) ≤ length xs
length-drop-le zero xs = omega arith
length-drop-le (suc n) [] = omega arith
length-drop-le (suc n) (x ∷ xs) = omega (arith, length-drop-le n xs)

scan_at-Ends :
    (file : Bytes) (limit : ℕ) (index : List IndexEntry) → Ends (scan_at file limit index)
unfolding scan_at
scan_at-Ends file limit [] = tt
scan_at-Ends file limit (ie ∷ index) = elim (Bool-cases (leb (2 ^ 63) ie.offset)) [
  | inl negative ↦ rw negative tt
  | inr fine ↦
      let (more, q) =
        read_loop_total (suc (length file)) limit [] (drop ie.offset file)
          (omega (arith, length-drop-le ie.offset file)) in
      rw (fine, q) tt
]

pub scan-Ends : (r : Reader) (start : Key) (limit : ℕ) → Ends (scan r start limit)
unfolding scan
scan-Ends r start limit = scan_at-Ends r.file limit (index_from start r.index)
