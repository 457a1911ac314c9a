-- ===== src/Sstable/Search.antt =====
-- internal/storage/sstable/sstable.go: the binary search of `Get` over a rising index.
use Prim.Native.Nat.{Ordering}
use on_cloud_kv.Prelude.{
  ℕ, zero, suc, ◌+◌, ◌-◌, ◌/◌, ◌≤◌, ◌<◌, ◌≡◌, ◌≢◌, refl, true, Option, none, some, List, [], ◌∷◌,
  arith, length, get_elem?, if◌then◌else◌, inl, inr, Bool-cases, dec_lt,
}
use on_cloud_kv.Keys.{Key, key_ltb, key_eqb, key_eqb_iff, key_lt_irrefl, key_lt_trans, key_lt_total}
use on_cloud_kv.Sstable.{IndexEntry}
use on_cloud_kv.Sstable.Reader.{Outcome, ok, err, panic, out_of_fuel, compare_at, search_index}

abbrev pub IsRising : List IndexEntry → Type 0
IsRising index =
    (i j : ℕ) (a b : IndexEntry)
    → i < j
    → get_elem? index i ≡ some a
    → get_elem? index j ≡ some b
    → key_ltb a.key b.key ≡ true

get_elem?_in_range :
    (index : List IndexEntry) (i : ℕ)
    → i < length index
    → (ie : IndexEntry) × (get_elem? index i ≡ some ie)
get_elem?_in_range [] i h = absurd (omega arith)
get_elem?_in_range (ie ∷ index) zero h = (ie, refl)
get_elem?_in_range (ie ∷ index) (suc i) h = get_elem?_in_range index i (omega arith)

out_of_range :
    (index : List IndexEntry) (i : ℕ) (ie : IndexEntry)
    → length index ≤ i
    → get_elem? index i ≡ some ie
    → ⊥
out_of_range [] i ie h e = cc
out_of_range (x ∷ index) zero ie h e = omega arith
out_of_range (x ∷ index) (suc i) ie h e = out_of_range index i ie (omega arith) e

module _ (index : List IndexEntry) (k : Key) where
  compare_at_lem :
      (mid : ℕ) (ie : IndexEntry)
      → get_elem? index mid ≡ some ie
      → compare_at index k mid ≡ (
          if key_eqb ie.key k
          then Ordering.eq
          else if key_ltb ie.key k
          then Ordering.lt
          else Ordering.gt)
  unfolding compare_at
  compare_at_lem mid ie e = ground arith

  search_step :
      (fuel lo hi : ℕ) (m : IndexEntry)
      → lo < hi
      → get_elem? index ((lo + hi - 1) / 2) ≡ some m
      → search_index index k (suc fuel) lo hi ≡ (
          if key_eqb m.key k
          then ok (some ((lo + hi - 1) / 2))
          else if key_ltb m.key k
          then search_index index k fuel ((lo + hi - 1) / 2 + 1) hi
          else search_index index k fuel lo ((lo + hi - 1) / 2))
  unfolding search_index
  search_step fuel lo hi m h e = ground (arith, compare_at_lem ((lo + hi - 1) / 2) m e)

  search_empty : (fuel lo hi : ℕ) → hi ≤ lo → search_index index k (suc fuel) lo hi ≡ ok none
  unfolding search_index
  search_empty fuel lo hi h = ground arith

  -- All keys before a place are smaller, all from a place on are greater.
  abbrev SmallerBefore : ℕ → Type 0
  SmallerBefore lo =
      (i : ℕ) (ie : IndexEntry) → i < lo → get_elem? index i ≡ some ie → key_ltb ie.key k ≡ true

  abbrev GreaterFrom : ℕ → Type 0
  GreaterFrom hi =
      (i : ℕ) (ie : IndexEntry) → hi ≤ i → get_elem? index i ≡ some ie → key_ltb k ie.key ≡ true

  -- The place of the key, or the absence of the key; the search itself does not fail.
  abbrev pub Places : Outcome (Option ℕ) → Type 0
  Places err = ⊥
  Places panic = ⊥
  Places out_of_fuel = ⊥
  Places (ok (some i)) = (ie : IndexEntry) × (get_elem? index i ≡ some ie) × (ie.key ≡ k)
  Places (ok none) = (i : ℕ) (ie : IndexEntry) → get_elem? index i ≡ some ie → ie.key ≢ k

  module _ (rising : IsRising index) where
    smaller_up_to :
        (mid : ℕ) (m : IndexEntry)
        → get_elem? index mid ≡ some m
        → key_ltb m.key k ≡ true
        → SmallerBefore (mid + 1)
    smaller_up_to mid m at_mid lt i ie h e = elim (dec_lt i mid) [
      | yes before ↦ key_lt_trans ie.key m.key k (rising i mid ie m before e at_mid) lt
      | no not_before ↦
          let q : i ≡ mid = omega arith in
          let same : get_elem? index mid ≡ some ie = rw q at e in
          let z : m ≡ ie = ground arith in rw z at lt
    ]

    greater_down_to :
        (mid : ℕ) (m : IndexEntry)
        → get_elem? index mid ≡ some m
        → key_ltb k m.key ≡ true
        → GreaterFrom mid
    greater_down_to mid m at_mid lt i ie h e = elim (dec_lt mid i) [
      | yes after ↦ key_lt_trans k m.key ie.key lt (rising mid i m ie after at_mid e)
      | no not_after ↦
          let q : i ≡ mid = omega arith in
          let same : get_elem? index mid ≡ some ie = rw q at e in
          let z : m ≡ ie = ground arith in rw z at lt
    ]

    search_index_lem :
        (fuel lo hi : ℕ)
        → hi - lo < fuel
        → hi ≤ length index
        → SmallerBefore lo
        → GreaterFrom hi
        → Places (search_index index k fuel lo hi)
    search_index_lem zero lo hi f bound below_ above_ = absurd (omega arith)
    search_index_lem (suc fuel) lo hi f bound below_ above_ = elim (dec_lt lo hi) [
      | no empty ↦ rw (search_empty fuel lo hi (omega arith)) (λ i ie e q. elim (dec_lt i lo) [
        | yes before ↦ ground (arith, below_ i ie before e, key_lt_irrefl k)
        | no from_ ↦ ground (arith, above_ i ie (omega arith) e, key_lt_irrefl k)
      ])
      | yes h ↦
          let mid = (lo + hi - 1) / 2 in
          let (m, at_mid) = get_elem?_in_range index mid (omega arith) in
          rw (search_step fuel lo hi m h at_mid) (elim (Bool-cases (key_eqb m.key k)) [
            | inl same ↦ rw same (m, at_mid, (key_eqb_iff m.key k).0 same)
            | inr other ↦ rw other (elim (Bool-cases (key_ltb m.key k)) [
              | inl lt ↦ rw lt (
                  search_index_lem fuel (mid + 1) hi (omega arith) bound
                    (smaller_up_to mid m at_mid lt) above_)
              | inr ge ↦ rw ge (
                  search_index_lem fuel lo mid (omega arith) (omega arith) below_ (
                    greater_down_to mid m at_mid
                      (ground (arith, key_lt_total m.key k, key_eqb_iff m.key k))))
            ])
          ])
    ]

    -- Over a rising index the search of `Get` ends, at the place of the key if it is there.
    pub search_index-Places : Places (search_index index k (suc (length index)) 0 (length index))
    search_index-Places =
        search_index_lem (suc (length index)) 0 (length index) (omega arith) (omega arith)
          (λ i ie h e. absurd (omega arith)) (λ i ie h e. absurd (out_of_range index i ie h e))
