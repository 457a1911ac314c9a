-- ===== src/Skiplist/Refine.antt =====
-- internal/storage/skiplist/skiplist.go: `Put` and `Delete` refine the updates of an ordered list of
-- entries.
use on_cloud_kv.Prelude.{
  ℕ, suc, ◌≤◌, ◌≡◌, refl, ap, ◌∙◌, Bool, true, false, Option, none, some, List, [], ◌∷◌, arith, leb,
  if◌then◌else◌,
}
use mathlib.Core.Path.{subst}
use on_cloud_kv.Bytes.{Bytes}
use on_cloud_kv.Keys.{Key}
use on_cloud_kv.Entry.{Entry}
use on_cloud_kv.Entries.{upsert}
use on_cloud_kv.Skiplist.{
  Skiplist, Update, head, max_level, random_loop, random_level, set_entry, match_node,
  search_update, put_at, put,
}
use on_cloud_kv.Skiplist.Links.{first}
use on_cloud_kv.Skiplist.Search.{above, before, search_update-before, search_update-at}
use on_cloud_kv.Skiplist.Invariant.{Represents, before-top, first-above}
use on_cloud_kv.Skiplist.Overwrite.{match_node-some, overwrite-Represents}
use on_cloud_kv.Skiplist.Insert.{insert_node-Represents}

random_loop_bound :
    (lvl : ℕ) (rolls : List Bool) → lvl ≤ max_level → random_loop lvl rolls ≤ max_level
unfolding random_loop
random_loop_bound lvl [] h = h
random_loop_bound lvl (true ∷ rolls) h = ground (arith, random_loop_bound (suc lvl) rolls)
random_loop_bound lvl (false ∷ rolls) h = ground arith

pub random_level-le : (rolls : List Bool) → random_level rolls ≤ max_level
unfolding random_level
random_level-le rolls = random_loop_bound 0 rolls (omega arith)

-- The entry that `Put` writes.
abbrev pub live : Key → Bytes → ℕ → Entry
live k value version = record { key = k; value = value; version = version; deleted = false }

module _ (s : Skiplist) (es : List Entry) (k : Key) (r : Represents s es) where
  abbrev pub found : Option ℕ
  found = match_node s.node k (first (above s.node k r.ids))

  abbrev descent : ℕ × Update
  descent = search_update s.node s.next_node k s.level head (λ i. none)

  descent-match : match_node s.node k ((s.node descent.0).forward 0) ≡ found
  descent-match =
      let cur : descent.0 ≡ before s.node k r.ids 0 =
        subst
          (λ c.
            (search_update s.node s.next_node k s.level c (λ i. none)).0 ≡ before s.node k r.ids 0)
          (before-top s.node k r.ids s.level (suc s.level) (omega arith) r.valid.low)
          (search_update-before s.node r.ids k s.next_node r.valid.linked r.valid.sorted
            (omega (arith, r.valid.room)) s.level (λ i. none)) in
      rw (cur, first-above s.node k r.ids r.valid.linked)

  descent-update :
      (m : ℕ) → descent.1 m ≡ (if leb m s.level then some (before s.node k r.ids m) else none)
  descent-update m =
      subst
        (λ c.
          (search_update s.node s.next_node k s.level c (λ i. none)).1 m
          ≡ (if leb m s.level then some (before s.node k r.ids m) else none))
        (before-top s.node k r.ids s.level (suc s.level) (omega arith) r.valid.low)
        (search_update-at s.node r.ids k s.next_node r.valid.linked r.valid.sorted
          (omega (arith, r.valid.room)) s.level (λ i. none) m)

  -- Overwriting the node that was found, by an entry of its key.
  pub overwrite_found :
      (n : ℕ) (e w : Entry)
      → found ≡ some n
      → e.key ≡ (s.node n).entry.key
      → e ≡ w
      → Represents (record s { node = set_entry s.node n e }) (upsert w es)
  overwrite_found n e w m same q =
      subst (λ z. Represents (record s { node = set_entry s.node n e }) (upsert z es)) q
        (overwrite-Represents s es k n e r
          (same ∙ (match_node-some s.node k (first (above s.node k r.ids)) n m).1) m)

  key_at : (n : ℕ) → found ≡ some n → (s.node n).entry.key ≡ k
  key_at n m = (match_node-some s.node k (first (above s.node k r.ids)) n m).1

  put_at-Represents :
      (lvl : ℕ) (value : Bytes) (version : ℕ) (o : Option ℕ)
      → lvl ≤ max_level
      → found ≡ o
      → Represents
          (put_at s descent.1 lvl (live k value version) o)
          (upsert (live k value version) es)
  unfolding put_at
  put_at-Represents lvl value version none bound m =
      insert_node-Represents s es descent.1 lvl (live k value version) r descent-update m bound
  put_at-Represents lvl value version (some n) bound m =
      overwrite_found n (live (s.node n).entry.key value version) (live k value version) m refl
        (ap (λ (j : Key). live j value version) (key_at n m))

  -- On a well-formed list of entries `Put` keeps the list well-formed, whatever level is drawn, and
  -- puts the entry in its place: behind the smaller keys, instead of any entry of the same key.
  pub put-Represents :
      (rolls : List Bool) (value : Bytes) (version : ℕ)
      → Represents (put s rolls k value version) (upsert (live k value version) es)
  unfolding put
  put-Represents rolls value version =
      rw descent-match
        (put_at-Represents (random_level rolls) value version found (random_level-le rolls) refl)
