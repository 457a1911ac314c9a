-- ===== src/Skiplist/Linked.antt =====
-- internal/storage/skiplist/skiplist.go: the heap after `Put` has set the pointers of a new node.
use mathlib.Core.Path.{fun_ext}
use on_cloud_kv.Prelude.{
  ℕ, suc, ◌+◌, ◌≤◌, ◌<◌, ◌≡◌, ◌≢◌, refl, sym, ap, ◌∙◌, Bool, true, false, ◌&&◌, some, List, [], ◌∷◌,
  ◌++◌, arith, leb, All, All-append, if◌then◌else◌, lt→ltb, le→leb, le→ltb_false, dec_le,
}
use on_cloud_kv.Keys.{key_ltb}
use on_cloud_kv.Entry.{Entry}
use on_cloud_kv.Entries.{upsert}
use on_cloud_kv.Skiplist.{Heap, Node, Update, head, set_node, new_node, splice}
use on_cloud_kv.Skiplist.Links.{
  Links, last, Distinct, relink, Links-same, Links-relink, All-map, All-split,
}
use on_cloud_kv.Skiplist.Search.{
  at_least, at_least-append, All-at_least, IsLinked, IsSorted, AllBelow,
}
use on_cloud_kv.Skiplist.Invariant.{entries_of}
use on_cloud_kv.Skiplist.Agree.{at_least-agree, IsSorted-agree, low-agree}
use on_cloud_kv.Skiplist.Splice.{splice_forward, splice_rest}
use on_cloud_kv.Skiplist.Place.{
  Distinct-at_least, IsSorted-insert, All-insert, entries_of-append, entries_of-agree,
  upsert-between,
}

not_leb : (j l : ℕ) → ¬ (j ≤ l) → leb j l ≡ false
not_leb j l gt = ground arith

and-false : (b : Bool) → (b && false) ≡ false
and-false true = refl
and-false false = refl

All-zip :
    (P Q R : ℕ → Type 0) (xs : List ℕ)
    → ((x : ℕ) → P x → Q x → R x)
    → All P xs
    → All Q xs
    → All R xs
All-zip P Q R [] k p q = tt
All-zip P Q R (x ∷ xs) k p q = (k x p.0 q.0, All-zip P Q R xs k p.1 q.1)

-- The new node alone, with no pointer to it, is another node than those in use.
module _ (h : Heap) (n : ℕ) (lvl : ℕ) (e : Entry) where
  abbrev pub h0 : Heap
  h0 = set_node h n (new_node lvl e)

  h0_new : h0 n ≡ new_node lvl e
  h0_new = ground arith

  h0_old : (x : ℕ) → x ≢ n → h0 x ≡ h x
  h0_old x ne = ground arith

  h0_forwards :
      (j : ℕ) (xs : List ℕ) → All (λ x. x ≢ n) xs → All (λ x. (h0 x).forward j ≡ (h x).forward j) xs
  h0_forwards j [] a = tt
  h0_forwards j (x ∷ xs) a = (ap (λ (m : Node). m.forward j) (h0_old x a.0), h0_forwards j xs a.1)

-- The heap after the pointers were set, `u` the nodes before the key.
module _ (h : Heap) (n lvl : ℕ) (e : Entry) (update : Update) (u : ℕ → ℕ)
    (present : (m : ℕ) → m < suc lvl → update m ≡ some (u m)) (apart : (m : ℕ) → u m ≢ n) where
  abbrev pub g : Heap
  g = splice (suc lvl) 0 (h0 h n lvl e) n update

  g_height_new : (g n).height ≡ lvl
  g_height_new =
      (splice_rest (suc lvl) 0 (h0 h n lvl e) n update n).0
      ∙ ap (λ (m : Node). m.height) (h0_new h n lvl e)

  g_entry_new : (g n).entry ≡ e
  g_entry_new =
      (splice_rest (suc lvl) 0 (h0 h n lvl e) n update n).1
      ∙ ap (λ (m : Node). m.entry) (h0_new h n lvl e)

  g_heights : (xs : List ℕ) → All (λ x. x ≢ n) xs → All (λ x. (g x).height ≡ (h x).height) xs
  g_heights [] a = tt
  g_heights (x ∷ xs) a = (
    (splice_rest (suc lvl) 0 (h0 h n lvl e) n update x).0
        ∙ ap (λ (m : Node). m.height) (h0_old h n lvl e x a.0),
    g_heights xs a.1,
  )

  g_entries : (xs : List ℕ) → All (λ x. x ≢ n) xs → All (λ x. (g x).entry ≡ (h x).entry) xs
  g_entries [] a = tt
  g_entries (x ∷ xs) a = (
    (splice_rest (suc lvl) 0 (h0 h n lvl e) n update x).1
        ∙ ap (λ (m : Node). m.entry) (h0_old h n lvl e x a.0),
    g_entries xs a.1,
  )

  -- Up to the level of the new node every chain is relinked, above it none is.
  g_relinked :
      (j x : ℕ) → j ≤ lvl → (g x).forward j ≡ relink (λ z. (h0 h n lvl e z).forward j) n (u j) x
  g_relinked j x le =
      splice_forward (suc lvl) 0 (h0 h n lvl e) n update u x j (λ m lt. present m (omega arith))
        apart
      ∙ rw (le→leb 0 j (omega arith), lt→ltb j (0 + suc lvl) (omega arith))

  g_kept : (j x : ℕ) → lvl < j → (g x).forward j ≡ (h0 h n lvl e x).forward j
  g_kept j x lt =
      splice_forward (suc lvl) 0 (h0 h n lvl e) n update u x j (λ m lt. present m (omega arith))
        apart
      ∙ rw (le→ltb_false j (0 + suc lvl) (omega arith), and-false (leb 0 j))

  linked_low :
      (j : ℕ) (xs ys : List ℕ)
      → j ≤ lvl
      → Links (λ x. (h x).forward j) head (xs ++ ys)
      → Distinct (head ∷ xs ++ ys)
      → All (λ x. x ≢ n) (head ∷ xs ++ ys)
      → u j ≡ last head xs
      → Links (λ x. (g x).forward j) head (xs ++ n ∷ ys)
  linked_low j xs ys le l d new uj =
      let f = λ (z : ℕ). (h0 h n lvl e z).forward j in
      let l0 : Links f head (xs ++ ys) =
        Links-same (λ x. (h x).forward j) f head (xs ++ ys)
          (h0_forwards h n lvl e j (head ∷ []) (new.0, tt)).0
          (h0_forwards h n lvl e j (xs ++ ys) new.1) l in
      let now : (λ (x : ℕ). (g x).forward j) ≡ relink f n (last head xs) =
        fun_ext (λ x. rw (← uj) (g_relinked j x le)) in
      rw now (Links-relink f n head xs ys l0 d new)

  linked_high :
      (j : ℕ) (xs : List ℕ)
      → lvl < j
      → Links (λ x. (h x).forward j) head xs
      → All (λ x. x ≢ n) (head ∷ xs)
      → Links (λ x. (g x).forward j) head xs
  linked_high j xs lt l new =
      let f = λ (z : ℕ). (h0 h n lvl e z).forward j in
      let now : (λ (x : ℕ). (g x).forward j) ≡ f = fun_ext (λ x. g_kept j x lt) in
      rw now (
        Links-same (λ x. (h x).forward j) f head xs
          (h0_forwards h n lvl e j (head ∷ []) (new.0, tt)).0 (h0_forwards h n lvl e j xs new.1) l)

  at_least-new :
      (j : ℕ) (xs ys : List ℕ)
      → All (λ x. x ≢ n) xs
      → All (λ x. x ≢ n) ys
      → at_least g j (xs ++ n ∷ ys)
        ≡ at_least h j xs ++ (if leb j lvl then n ∷ at_least h j ys else at_least h j ys)
  at_least-new j xs ys a b =
      at_least-append g j xs (n ∷ ys)
      ∙ rw (
        at_least-agree g h j xs (g_heights xs a),
        at_least-agree g h j ys (g_heights ys b),
        g_height_new,
      )

  -- At every level the chain leads through the new node, if that takes part in it.
  pub IsLinked-All :
      (xs ys : List ℕ)
      → ((j : ℕ) → Links (λ x. (h x).forward j) head (at_least h j xs ++ at_least h j ys))
      → Distinct (head ∷ xs ++ ys)
      → All (λ x. x ≢ n) (head ∷ xs ++ ys)
      → ((j : ℕ) → u j ≡ last head (at_least h j xs))
      → IsLinked g (xs ++ n ∷ ys)
  IsLinked-All xs ys l d new uj j =
      let (newx, newy) = All-split (λ x. x ≢ n) xs ys new.1 in
      let both = at_least-append h j xs ys in
      let new_j : All (λ x. x ≢ n) (head ∷ at_least h j xs ++ at_least h j ys) =
        (new.0, rw (← both) (All-at_least h (λ x. x ≢ n) j (xs ++ ys) new.1)) in
      let d_j : Distinct (head ∷ at_least h j xs ++ at_least h j ys) =
        rw (← both)
          (All-at_least h (λ y. head ≢ y) j (xs ++ ys) d.0, Distinct-at_least h j (xs ++ ys) d.1) in
      rw (at_least-new j xs ys newx newy) (elim (dec_le j lvl) [
        | yes le ↦
            rw (le→leb j lvl le)
              (linked_low j (at_least h j xs) (at_least h j ys) le (l j) d_j new_j (uj j))
        | no gt ↦
            rw (not_leb j lvl gt)
              (linked_high j (at_least h j xs ++ at_least h j ys) (omega arith) (l j) new_j)
      ])

  pub IsSorted-new :
      (xs ys : List ℕ)
      → IsSorted h (xs ++ ys)
      → AllBelow h e.key xs
      → All (λ y. key_ltb e.key (h y).entry.key ≡ true) ys
      → All (λ x. x ≢ n) xs
      → All (λ x. x ≢ n) ys
      → IsSorted g (xs ++ n ∷ ys)
  IsSorted-new xs ys s a b newx newy =
      IsSorted-insert g n xs ys
        (IsSorted-agree g h (xs ++ ys)
          (All-map (λ x. (g x).entry ≡ (h x).entry) (λ x. (g x).entry.key ≡ (h x).entry.key)
            (xs ++ ys) (λ x q. ap (λ (z : Entry). z.key) q)
            (g_entries (xs ++ ys) (All-append (λ x. x ≢ n) xs ys newx newy)))
          s)
        (All-zip (λ x. (g x).entry ≡ (h x).entry) (λ x. key_ltb (h x).entry.key e.key ≡ true)
          (λ x. key_ltb (g x).entry.key (g n).entry.key ≡ true) xs
          (λ x q lt. rw (q, g_entry_new) lt) (g_entries xs newx) a)
        (All-zip (λ x. (g x).entry ≡ (h x).entry) (λ x. key_ltb e.key (h x).entry.key ≡ true)
          (λ x. key_ltb (g n).entry.key (g x).entry.key ≡ true) ys
          (λ x q lt. rw (q, g_entry_new) lt) (g_entries ys newy) b)

  pub entries_new :
      (xs ys : List ℕ)
      → AllBelow h e.key xs
      → All (λ y. key_ltb e.key (h y).entry.key ≡ true) ys
      → All (λ x. x ≢ n) xs
      → All (λ x. x ≢ n) ys
      → entries_of g (xs ++ n ∷ ys) ≡ upsert e (entries_of h (xs ++ ys))
  entries_new xs ys a b newx newy =
      entries_of-append g xs (n ∷ ys)
      ∙ (rw (
        entries_of-agree g h xs (g_entries xs newx),
        entries_of-agree g h ys (g_entries ys newy),
        g_entry_new,
      ))
      ∙ sym (upsert-between h e xs ys a b)

  pub low_new :
      (l m : ℕ) (xs ys : List ℕ)
      → l ≤ m
      → lvl ≤ m
      → All (λ x. (h x).height ≤ l) (xs ++ ys)
      → All (λ x. x ≢ n) (xs ++ ys)
      → All (λ x. (g x).height ≤ m) (xs ++ n ∷ ys)
  low_new l m xs ys le lele low new =
      All-insert (λ x. (g x).height ≤ m) n xs ys (rw g_height_new lele)
        (low-agree g h l m (xs ++ ys) le (g_heights (xs ++ ys) new) low)
