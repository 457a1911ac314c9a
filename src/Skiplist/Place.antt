-- ===== src/Skiplist/Place.antt =====
-- internal/storage/skiplist/skiplist.go: a new node among the nodes before and behind its key.
use on_cloud_kv.Prelude.{
  ℕ, zero, suc, ◌+◌, ◌≡◌, ◌≢◌, refl, true, ◌&&◌, none, some, List, [], ◌∷◌, ◌++◌, arith, leb, ltb,
  All, All-append, if◌then◌else◌, Bool-cases, inl, inr,
}
use on_cloud_kv.Keys.{
  Key, key_ltb, key_eqb_iff, key_lt_irrefl, key_lt_trans, key_lt_total, key_lt_asym,
}
use on_cloud_kv.Entry.{Entry}
use on_cloud_kv.Entries.{upsert}
use on_cloud_kv.Skiplist.{Heap, Update, head, set_update, fill_update, match_node}
use on_cloud_kv.Skiplist.Links.{first, Distinct, All-split}
use on_cloud_kv.Skiplist.Search.{at_least, All-at_least, IsSorted, AllBelow, NoneBelow}
use on_cloud_kv.Skiplist.Invariant.{entries_of}
use on_cloud_kv.Skiplist.Agree.{greater_distinct}

pub fill_update_at :
    (rounds i : ℕ) (update : Update) (j : ℕ)
    → fill_update rounds i update j
      ≡ (if leb i j && ltb j (i + rounds) then some head else update j)
unfolding fill_update
fill_update_at zero i update j = ground arith
fill_update_at (suc rounds) i update j =
    ground (arith, fill_update_at rounds (suc i) (set_update update i head) j)

-- A search that finds nothing stands before greater keys.
pub no_match_greater :
    (h : Heap) (k : Key) (xs : List ℕ)
    → IsSorted h xs
    → NoneBelow h k xs
    → match_node h k (first xs) ≡ none
    → All (λ y. key_ltb k (h y).entry.key ≡ true) xs
unfolding match_node
no_match_greater h k [] s b m = tt
no_match_greater h k (x ∷ xs) s b m =
    let lt : key_ltb k (h x).entry.key ≡ true =
      ground (arith, key_lt_total (h x).entry.key k, key_eqb_iff (h x).entry.key k) in
    (lt, all_greater xs lt s.0)
  where
    all_greater :
        (ys : List ℕ)
        → key_ltb k (h x).entry.key ≡ true
        → All (λ y. key_ltb (h x).entry.key (h y).entry.key ≡ true) ys
        → All (λ y. key_ltb k (h y).entry.key ≡ true) ys
    all_greater [] lt a = tt
    all_greater (y ∷ ys) lt a =
        (key_lt_trans k (h x).entry.key (h y).entry.key lt a.0, all_greater ys lt a.1)

pub Distinct-at_least : (h : Heap) (j : ℕ) (xs : List ℕ) → Distinct xs → Distinct (at_least h j xs)
Distinct-at_least h j [] d = tt
Distinct-at_least h j (x ∷ xs) d = elim (Bool-cases (leb j (h x).height)) [
  | inl e ↦ rw e (All-at_least h (λ y. x ≢ y) j xs d.0, Distinct-at_least h j xs d.1)
  | inr e ↦ rw e (Distinct-at_least h j xs d.1)
]

pub IsSorted-Distinct : (h : Heap) (xs : List ℕ) → IsSorted h xs → Distinct xs
IsSorted-Distinct h [] s = tt
IsSorted-Distinct h (x ∷ xs) s = (greater_distinct h x xs s.0, IsSorted-Distinct h xs s.1)

-- A key in its place keeps the keys rising.
pub IsSorted-insert :
    (h : Heap) (n : ℕ) (xs ys : List ℕ)
    → IsSorted h (xs ++ ys)
    → All (λ x. key_ltb (h x).entry.key (h n).entry.key ≡ true) xs
    → All (λ y. key_ltb (h n).entry.key (h y).entry.key ≡ true) ys
    → IsSorted h (xs ++ n ∷ ys)
IsSorted-insert h n [] ys s a b = (b, s)
IsSorted-insert h n (x ∷ xs) ys s a b =
    let (front, back) = All-split (λ y. key_ltb (h x).entry.key (h y).entry.key ≡ true) xs ys s.0 in
    (
      All-append (λ y. key_ltb (h x).entry.key (h y).entry.key ≡ true) xs (n ∷ ys) front
          (a.0, back),
      IsSorted-insert h n xs ys s.1 a.1 b,
    )

pub All-insert :
    (P : ℕ → Type 0) (n : ℕ) (xs ys : List ℕ) → P n → All P (xs ++ ys) → All P (xs ++ n ∷ ys)
All-insert P n xs ys p a =
    let (front, back) = All-split P xs ys a in All-append P xs (n ∷ ys) front (p, back)

pub entries_of-append :
    (h : Heap) (xs ys : List ℕ) → entries_of h (xs ++ ys) ≡ entries_of h xs ++ entries_of h ys
entries_of-append h [] ys = refl
entries_of-append h (x ∷ xs) ys = rw (entries_of-append h xs ys)

pub entries_of-agree :
    (g h : Heap) (xs : List ℕ)
    → All (λ x. (g x).entry ≡ (h x).entry) xs
    → entries_of g xs ≡ entries_of h xs
entries_of-agree g h [] a = refl
entries_of-agree g h (x ∷ xs) a = rw (a.0, entries_of-agree g h xs a.1)

pub upsert-between :
    (h : Heap) (e : Entry) (xs ys : List ℕ)
    → AllBelow h e.key xs
    → All (λ y. key_ltb e.key (h y).entry.key ≡ true) ys
    → upsert e (entries_of h (xs ++ ys)) ≡ entries_of h xs ++ e ∷ entries_of h ys
unfolding upsert
upsert-between h e [] [] a b = refl
upsert-between h e [] (y ∷ ys) a b = ground (
  arith,
  key_lt_asym e.key (h y).entry.key,
  key_eqb_iff (h y).entry.key e.key,
  key_lt_irrefl e.key,
)
upsert-between h e (x ∷ xs) ys a b = rw a.0 (rw (upsert-between h e xs ys a.1 b))
