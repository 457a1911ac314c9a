-- ===== src/Skiplist/Overwrite.antt =====
-- internal/storage/skiplist/skiplist.go: writing to the entry of a node that is there.
use on_cloud_kv.Prelude.{
  ℕ, ◌≡◌, ◌≢◌, refl, sym, ap, ◌∙◌, true, false, Option, none, some, List, [], ◌∷◌, arith, ◌==◌,
  ==_iff, All, Bool-cases, inl, inr,
}
use on_cloud_kv.Keys.{Key, key_ltb, key_eqb, key_eqb_iff, key_lt_irrefl}
use on_cloud_kv.Entry.{Entry}
use on_cloud_kv.Entries.{upsert}
use on_cloud_kv.Skiplist.{Heap, Skiplist, set_entry, match_node}
use on_cloud_kv.Skiplist.Links.{first, Links-same}
use on_cloud_kv.Skiplist.Search.{at_least, above, IsSorted}
use on_cloud_kv.Skiplist.Invariant.{Represents, entries_of}
use on_cloud_kv.Skiplist.Agree.{All-of, at_least-agree, IsSorted-agree, low-agree, greater_distinct}

-- A search that stops at a node has found the key there.
pub match_node-some :
    (h : Heap) (k : Key) (o : Option ℕ) (n : ℕ)
    → match_node h k o ≡ some n
    → (o ≡ some n) × ((h n).entry.key ≡ k)
unfolding match_node
match_node-some h k none n e = cc
match_node-some h k (some m) n e =
    ground (arith, key_eqb_iff (h m).entry.key k, key_eqb_iff (h n).entry.key k)

module _ (h : Heap) (n : ℕ) (e : Entry) where
  set_entry_shape :
      (x : ℕ)
      → ((set_entry h n e x).forward ≡ (h x).forward) × ((set_entry h n e x).height ≡ (h x).height)
  unfolding set_entry
  set_entry_shape x = elim (Bool-cases (x == n)) [
    | inl same ↦
        let q = sym ((==_iff x n).0 same) in
        rw same (ap (λ (z : ℕ). (h z).forward) q, ap (λ (z : ℕ). (h z).height) q)
    | inr other ↦ rw other (refl, refl)
  ]

  set_entry_same : (set_entry h n e n).entry ≡ e
  unfolding set_entry
  set_entry_same = ground arith

  set_entry_other : (x : ℕ) → x ≢ n → (set_entry h n e x).entry ≡ (h x).entry
  unfolding set_entry
  set_entry_other x ne = ground arith

  set_entry_key :
      (x : ℕ) → e.key ≡ (h n).entry.key → (set_entry h n e x).entry.key ≡ (h x).entry.key
  unfolding set_entry
  set_entry_key x same = ground arith

  entries_of-others :
      (xs : List ℕ) → All (λ x. n ≢ x) xs → entries_of (set_entry h n e) xs ≡ entries_of h xs
  entries_of-others [] a = refl
  entries_of-others (x ∷ xs) a = rw (set_entry_other x (λ q. a.0 (sym q)), entries_of-others xs a.1)

  entries_of-overwrite :
      (k : Key) (xs : List ℕ)
      → IsSorted h xs
      → e.key ≡ k
      → match_node h k (first (above h k xs)) ≡ some n
      → entries_of (set_entry h n e) xs ≡ upsert e (entries_of h xs)
  unfolding upsert
  entries_of-overwrite k [] s ek m = ground (arith, match_node-some h k none n m)
  entries_of-overwrite k (x ∷ xs) s ek m = elim (Bool-cases (key_ltb (h x).entry.key k)) [
    | inl lt ↦
        let m' : match_node h k (first (above h k xs)) ≡ some n = rw lt at m in
        let here = (match_node-some h k (first (above h k xs)) n m').1 in
        let apart : x ≢ n =
          λ q. ground (arith, ap (λ (z : ℕ). (h z).entry.key) q, key_lt_irrefl k) in
        let lt' : key_ltb (h x).entry.key e.key ≡ true = rw ek lt in
        rw (lt', set_entry_other x apart, entries_of-overwrite k xs s.1 ek m')
    | inr ge ↦
        let (found, here) = match_node-some h k (some x) n (rw ge at m) in
        let q : x ≡ n = ground arith in
        let same_key : key_eqb (h x).entry.key k ≡ true =
          (key_eqb_iff (h x).entry.key k).1 (rw q here) in
        let same_key' : key_eqb (h x).entry.key e.key ≡ true = rw ek same_key in
        let ge' : key_ltb (h x).entry.key e.key ≡ false = rw ek ge in
        let others : All (λ y. n ≢ y) xs = rw (← q) (greater_distinct h x xs s.0) in
        let written : (set_entry h n e x).entry ≡ e = rw q set_entry_same in
        rw (ge', same_key', written, entries_of-others xs others)
  ]

-- Overwriting the entry of the node of a key keeps the list well-formed, and puts the entry in place
-- of the one that the key had.
pub overwrite-Represents :
    (s : Skiplist) (es : List Entry) (k : Key) (n : ℕ) (e : Entry) (r : Represents s es)
    → e.key ≡ k
    → match_node s.node k (first (above s.node k r.ids)) ≡ some n
    → Represents (record s { node = set_entry s.node n e }) (upsert e es)
overwrite-Represents s es k n e r ek m =
    let g = set_entry s.node n e in
    let v = r.valid in
    let heights =
      All-of {P = λ x. (g x).height ≡ (s.node x).height} r.ids
        (λ x. (set_entry_shape s.node n e x).1) in
    let kn = (match_node-some s.node k (first (above s.node k r.ids)) n m).1 in
    record {
      ids = r.ids;
      valid = record {
        linked = λ i. rw (at_least-agree g s.node i r.ids heights) (
            Links-same (λ x. (s.node x).forward i) (λ x. (g x).forward i) 0
              (at_least s.node i r.ids)
              (ap (λ (f : ℕ → Option ℕ). f i) (set_entry_shape s.node n e 0).0)
              (All-of (at_least s.node i r.ids)
                (λ x. ap (λ (f : ℕ → Option ℕ). f i) (set_entry_shape s.node n e x).0))
              (v.linked i));
        sorted =
            IsSorted-agree g s.node r.ids
              (All-of r.ids (λ x. set_entry_key s.node n e x (ek ∙ sym kn))) v.sorted;
        used = v.used;
        low = low-agree g s.node s.level s.level r.ids (omega arith) heights v.low;
        room = v.room;
        counted = v.counted;
        bounded = v.bounded;
      };
      same = entries_of-overwrite s.node n e k r.ids v.sorted ek m ∙ ap (upsert e) r.same;
    }
