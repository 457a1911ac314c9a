-- ===== src/Sstable/Lookup.antt =====
-- internal/storage/sstable/sstable.go: `Get` on a table that a writer closed.
use on_cloud_kv.Prelude.{
  ℕ, zero, suc, ◌+◌, ◌-◌, ◌^◌, ◌≤◌, ◌<◌, ◌≡◌, ◌≢◌, refl, sym, ap, ◌∙◌, true, false, Option, none,
  some, List, [], ◌∷◌, ◌++◌, map, append_assoc, arith, length, length-append, get_elem?, drop, leb,
  inl, inr, Bool-cases, All, lt→leb_false,
}
use native.Mathlib.Nat.{zero-add, suc-add}
use on_cloud_kv.Bytes.{Bytes}
use on_cloud_kv.Keys.{Key, key_ltb, key_eqb_iff, key_eqb_of_lt}
use on_cloud_kv.Entry.{Entry}
use on_cloud_kv.Entries.{find, IsOrdered}
use on_cloud_kv.Bloom
use on_cloud_kv.Bloom.{Sizing}
use on_cloud_kv.Bloom.Member.{contains-add_all, new-IsValid}
use on_cloud_kv.Sstable.{IndexEntry, entry_bytes, index_block, index_len, footer}
use on_cloud_kv.Sstable.Reader.{
  Outcome, ok, err, panic, out_of_fuel, read_entry, entry_of, read_at, search_index, fetch,
  fetch_at, get,
}
use on_cloud_kv.Sstable.Codec.{IsStorable, read_entry-entry_bytes}
use on_cloud_kv.Sstable.Open.{data_block, index_of, Fits, build_lem, reader_of}
use on_cloud_kv.Sstable.Search.{IsRising, Places, search_index-Places}

drop-add : (n : ℕ) (xs ys : Bytes) → drop (length xs + n) (xs ++ ys) ≡ drop n ys
drop-add n [] ys = rw zero-add
drop-add n (x ∷ xs) ys = rw suc-add (drop-add n xs ys)

-- What stands at a place of the index: the key and the offset of the entry at that place.
record Locates (off : ℕ) (es : List Entry) (rest : Bytes) (i : ℕ) (ie : IndexEntry) : Type 0 where
  entry : Entry
  there : get_elem? es i ≡ some entry
  key : ie.key ≡ entry.key
  behind : off ≤ ie.offset
  inside : ie.offset ≤ off + length (data_block es)
  after : Bytes
  readable : read_entry (drop (ie.offset - off) (data_block es ++ rest)) ≡ some (entry, after)

index_of-Locates :
    (off : ℕ) (es : List Entry) (rest : Bytes) (i : ℕ) (ie : IndexEntry)
    → All IsStorable es
    → get_elem? (index_of off es) i ≡ some ie
    → Locates off es rest i ie
unfolding index_of data_block
index_of-Locates off [] rest i ie h e = cc
index_of-Locates off (x ∷ es) rest zero ie h e =
    let off_eq : ie.offset ≡ off = ground arith in
    let key_eq : ie.key ≡ x.key = ground arith in
    let start : ie.offset - off ≡ 0 = omega arith in
    record {
      entry = x;
      there = refl;
      key = key_eq;
      behind = omega arith;
      inside = omega arith;
      after = data_block es ++ rest;
      readable = rw (start, append_assoc) (read_entry-entry_bytes x (data_block es ++ rest) h.0);
    }
index_of-Locates off (x ∷ es) rest (suc i) ie h e =
    let l = index_of-Locates (off + length (entry_bytes x)) es rest i ie h.1 e in
    let skip : ie.offset - off
        ≡ length (entry_bytes x) + (ie.offset - (off + length (entry_bytes x))) =
      omega (arith, l.behind) in
    record {
      entry = l.entry;
      there = l.there;
      key = l.key;
      behind = omega (arith, l.behind);
      inside = omega (arith, l.inside, length-append (entry_bytes x) (data_block es));
      after = l.after;
      readable = rw (skip, append_assoc, drop-add) l.readable;
    }

get_elem?-index_of :
    (off : ℕ) (es : List Entry) (i : ℕ) (x : Entry)
    → get_elem? es i ≡ some x
    → (ie : IndexEntry) × (get_elem? (index_of off es) i ≡ some ie) × (ie.key ≡ x.key)
unfolding index_of
get_elem?-index_of off [] i x e = cc
get_elem?-index_of off (y ∷ es) zero x e =
    (record { key = y.key; offset = off }, refl, ground arith)
get_elem?-index_of off (y ∷ es) (suc i) x e =
    get_elem?-index_of (off + length (entry_bytes y)) es i x e

All-at :
    (P : Entry → Type 0) (es : List Entry) (i : ℕ) (x : Entry)
    → All P es
    → get_elem? es i ≡ some x
    → P x
All-at P [] i x a e = cc
All-at P (y ∷ es) zero x a e = let q : y ≡ x = ground arith in rw (← q) a.0
All-at P (y ∷ es) (suc i) x a e = All-at P es i x a.1 e

IsOrdered-at :
    (es : List Entry) (i j : ℕ) (a b : Entry)
    → IsOrdered es
    → i < j
    → get_elem? es i ≡ some a
    → get_elem? es j ≡ some b
    → key_ltb a.key b.key ≡ true
IsOrdered-at [] i j a b o h ea eb = cc
IsOrdered-at (x ∷ es) i zero a b o h ea eb = absurd (omega arith)
IsOrdered-at (x ∷ es) zero (suc j) a b o h ea eb =
    let q : x ≡ a = ground arith in
    rw (← q) (All-at (λ (y : Entry). key_ltb x.key y.key ≡ true) es j b o.0 eb)
IsOrdered-at (x ∷ es) (suc i) (suc j) a b o h ea eb =
    IsOrdered-at es i j a b o.1 (omega arith) ea eb

find_there :
    (k : Key) (es : List Entry) (i : ℕ) (x : Entry)
    → IsOrdered es
    → get_elem? es i ≡ some x
    → x.key ≡ k
    → find k es ≡ some x
unfolding find
find_there k [] i x o e q = cc
find_there k (y ∷ es) zero x o e q = ground (arith, key_eqb_iff y.key k)
find_there k (y ∷ es) (suc i) x o e q =
    let lt = All-at (λ (z : Entry). key_ltb y.key z.key ≡ true) es i x o.0 e in
    rw (key_eqb_of_lt y.key k (rw q at lt)) (find_there k es i x o.1 e q)

find_absent :
    (k : Key) (es : List Entry)
    → ((i : ℕ) (x : Entry) → get_elem? es i ≡ some x → x.key ≢ k)
    → find k es ≡ none
unfolding find
find_absent k [] h = refl
find_absent k (y ∷ es) h =
    ground (arith, key_eqb_iff y.key k, h 0 y refl, find_absent k es (λ i x e. h (suc i) x e))

index_of-IsRising : (es : List Entry) → All IsStorable es → IsOrdered es → IsRising (index_of 0 es)
index_of-IsRising es st o i j a b h ea eb =
    let la = index_of-Locates 0 es [] i a st ea in
    let lb = index_of-Locates 0 es [] j b st eb in
    rw (la.key, lb.key) (IsOrdered-at es i j la.entry lb.entry o h la.there lb.there)

get_elem?-keys :
    (index : List IndexEntry) (i : ℕ) (ie : IndexEntry)
    → get_elem? index i ≡ some ie
    → get_elem? (map (λ (x : IndexEntry). x.key) index) i ≡ some ie.key
get_elem?-keys [] i ie e = cc
get_elem?-keys (x ∷ index) zero ie e = ground arith
get_elem?-keys (x ∷ index) (suc i) ie e = get_elem?-keys index i ie e

module _ (z : Sizing) (es : List Entry) (fits : Fits es) (ordered : IsOrdered es) (k : Key) where
  -- The filter lets every key of the table through.
  contains-key :
      (i : ℕ) (ie : IndexEntry)
      → get_elem? (index_of 0 es) i ≡ some ie
      → ie.key ≡ k
      → Bloom.contains (reader_of z es).filter k ≡ true
  contains-key i ie e q =
      contains-add_all (Bloom.new z (length es + 1) z.one_percent)
        (map (λ (x : IndexEntry). x.key) (index_of 0 es)) i k
        (new-IsValid z (length es + 1) (omega arith))
        (get_elem?-keys (index_of 0 es) i ie e ∙ ap some q)

  fetch_there :
      (i : ℕ) (ie : IndexEntry)
      → get_elem? (index_of 0 es) i ≡ some ie
      → ie.key ≡ k
      → fetch (reader_of z es) (ok (some i)) ≡ ok (find k es)
  unfolding fetch fetch_at read_at entry_of
  fetch_there i ie e q =
      let l =
        index_of-Locates 0 es
          (index_block (index_of 0 es)
            ++ footer (length (data_block es)) (index_len (index_of 0 es)) (length es))
          i ie fits.storable e in
      let small : leb (2 ^ 63) ie.offset ≡ false =
        lt→leb_false (2 ^ 63) ie.offset (omega (arith, l.inside, fits.data_fits)) in
      let start : ie.offset - 0 ≡ ie.offset = omega arith in
      rw (e, small, build_lem es, rw start at l.readable)
        (ap (λ (o : Option Entry). ok o)
          (sym (find_there k es i l.entry ordered l.there (sym l.key ∙ q))))

  fetch_found :
      (o : Outcome (Option ℕ))
      → Places (index_of 0 es) k o
      → fetch (reader_of z es) o ≡ ok (find k es)
  unfolding fetch
  fetch_found err h = absurd h
  fetch_found panic h = absurd h
  fetch_found out_of_fuel h = absurd h
  fetch_found (ok (some i)) (ie, e, q) = fetch_there i ie e q
  fetch_found (ok none) absent = rw (
      find_absent k es (λ i x e q.
        let (ie, at_i, same) = get_elem?-index_of 0 es i x e in absent i ie at_i (same ∙ q)))

  filtered_absent : Bloom.contains (reader_of z es).filter k ≡ false → find k es ≡ none
  filtered_absent out = find_absent k es (λ i x e q.
      let (ie, at_i, same) = get_elem?-index_of 0 es i x e in
      cc (out, contains-key i ie at_i (same ∙ q)))

  -- On a table of entries in rising order of their keys, whose sizes fit their fields, `Get` returns the
  -- entry of a key, and nothing for a key that is not in the table.
  pub get-build : get (reader_of z es) k ≡ ok (find k es)
  unfolding get
  get-build = elim (Bool-cases (Bloom.contains (reader_of z es).filter k)) [
    | inl in_ ↦ rw in_ (
        fetch_found
          (search_index (index_of 0 es) k (suc (length (index_of 0 es))) 0 (length (index_of 0 es)))
          (search_index-Places (index_of 0 es) k (index_of-IsRising es fits.storable ordered)))
    | inr out ↦ rw (out, filtered_absent out)
  ]
