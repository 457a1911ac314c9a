-- ===== src/Skiplist/Invariant.antt =====
-- internal/storage/skiplist/skiplist.go: what a well-formed list is, and what `Get` reads in it.
use on_cloud_kv.Prelude.{
  ℕ, suc, ◌≤◌, ◌<◌, ◌≡◌, refl, sym, true, none, List, [], ◌∷◌, arith, All, length, Bool-cases, inl,
  inr,
}
use mathlib.Core.Path.{subst}
use on_cloud_kv.Keys.{
  Key, key_ltb, key_eqb, key_lt_trans, key_eqb_of_lt, key_eqb_iff, key_lt_irrefl, key_lt_total,
}
use on_cloud_kv.Entry.{Entry}
use on_cloud_kv.Entries.{find}
use on_cloud_kv.Skiplist.{
  Heap, Skiplist, search, find_node, match_node, entry_at, get, new, head, max_level,
}
use on_cloud_kv.Skiplist.Links.{first, Links-drop, Links-first, All-split}
use on_cloud_kv.Skiplist.Search.{
  at_least, at_least-zero, at_least-empty, before, below, above, below-append-above, IsLinked,
  IsLinked-split, IsSorted, search-before,
}

-- `ids` are the nodes behind the head, in the order of level 0.
pub record IsValid (s : Skiplist) (ids : List ℕ) : Type 0 where
  pub linked : IsLinked s.node ids
  pub sorted : IsSorted s.node ids
  pub used : All (λ x. (0 < x) × (x < s.next_node)) ids
  pub low : All (λ x. (s.node x).height ≤ s.level) ids
  pub room : length ids < s.next_node
  pub counted : s.size ≡ length ids
  pub bounded : s.level ≤ max_level

abbrev pub entries_of : Heap → List ℕ → List Entry
entries_of h [] = []
entries_of h (x ∷ xs) = (h x).entry ∷ entries_of h xs

-- A well-formed list that holds the entries `es`, in this order.
pub record Represents (s : Skiplist) (es : List Entry) : Type 0 where
  pub ids : List ℕ
  pub valid : IsValid s ids
  pub same : entries_of s.node ids ≡ es

-- The head takes the place of the last node before a key at every level above those in use.
pub before-top :
    (h : Heap) (k : Key) (ids : List ℕ) (l j : ℕ)
    → l < j
    → All (λ x. (h x).height ≤ l) ids
    → before h k ids j ≡ head
before-top h k ids l j lt low = rw (
    at_least-empty h l j (below h k ids) lt
      (All-split (λ x. (h x).height ≤ l) (below h k ids) (above h k ids)
        (rw below-append-above low)).0)

pub first-above :
    (h : Heap) (k : Key) (ids : List ℕ)
    → IsLinked h ids
    → (h (before h k ids 0)).forward 0 ≡ first (above h k ids)
first-above h k ids linked =
    Links-first (λ x. (h x).forward 0) (before h k ids 0) (above h k ids)
      (Links-drop (λ x. (h x).forward 0) head (at_least h 0 (below h k ids)) (above h k ids)
        (rw (at_least-zero h (above h k ids)) at (IsLinked-split h k ids 0 linked)))

module _ (s : Skiplist) (ids : List ℕ) (v : IsValid s ids) (k : Key) where
  pub search-head : search s.node s.next_node k s.level head ≡ before s.node k ids 0
  search-head =
      subst (λ c. search s.node s.next_node k s.level c ≡ before s.node k ids 0)
        (before-top s.node k ids s.level (suc s.level) (omega arith) v.low)
        (search-before s.node ids k s.next_node v.linked v.sorted (omega (arith, v.room)) s.level)

  pub find_node-above : find_node s k ≡ match_node s.node k (first (above s.node k ids))
  unfolding find_node
  find_node-above = rw (search-head, first-above s.node k ids v.linked)

greater_absent :
    (h : Heap) (k : Key) (x : ℕ) (xs : List ℕ)
    → key_ltb k (h x).entry.key ≡ true
    → All (λ y. key_ltb (h x).entry.key (h y).entry.key ≡ true) xs
    → find k (entries_of h xs) ≡ none
unfolding find
greater_absent h k x [] lt a = refl
greater_absent h k x (y ∷ ys) lt a = ground (
  arith,
  greater_absent h k x ys lt a.1,
  key_lt_trans k (h x).entry.key (h y).entry.key,
  key_eqb_iff (h y).entry.key k,
  key_lt_irrefl k,
)

-- The entry of the node that a search stops at is the entry of the key.
match_node-find :
    (h : Heap) (k : Key) (ids : List ℕ)
    → IsSorted h ids
    → entry_at h (match_node h k (first (above h k ids))) ≡ find k (entries_of h ids)
unfolding match_node find entry_at
match_node-find h k [] s = refl
match_node-find h k (x ∷ xs) s = elim (Bool-cases (key_ltb (h x).entry.key k)) [
  | inl lt ↦ rw (lt, key_eqb_of_lt (h x).entry.key k lt) (match_node-find h k xs s.1)
  | inr ge ↦ rw ge (elim (Bool-cases (key_eqb (h x).entry.key k)) [
    | inl e ↦ rw e
    | inr ne ↦ rw ne (
        sym (
          greater_absent h k x xs
            (ground (arith, key_lt_total (h x).entry.key k, key_eqb_iff (h x).entry.key k)) s.0))
  ])
]

-- On a well-formed list of entries `Get` returns the entry of the key, and nothing for a key that
-- has none.
pub get-find : (s : Skiplist) (es : List Entry) (k : Key) → Represents s es → get s k ≡ find k es
unfolding get
get-find s es k r =
    rw (find_node-above s r.ids r.valid k, ← r.same) (match_node-find s.node k r.ids r.valid.sorted)

pub Represents-new : Represents new []
unfolding new
Represents-new = record {
  ids = [];
  valid = record {
    linked = λ i. refl;
    sorted = tt;
    used = tt;
    low = tt;
    room = omega arith;
    counted = refl;
    bounded = omega arith;
  };
  same = refl;
}
