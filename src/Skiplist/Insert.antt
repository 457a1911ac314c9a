-- ===== src/Skiplist/Insert.antt =====
-- internal/storage/skiplist/skiplist.go: `Put` of a new key puts a node in its place at each level.
use on_cloud_kv.Prelude.{
  ℕ, suc, ◌-◌, ◌≤◌, ◌<◌, ◌≡◌, ◌≢◌, refl, ap, ◌∙◌, true, none, some, List, [], ◌∷◌, ◌++◌, arith, leb,
  ltb, All, length, length-append, if◌then◌else◌, Bool-cases, inl, inr,
}
use on_cloud_kv.Keys.{Key, key_ltb}
use on_cloud_kv.Entry.{Entry}
use on_cloud_kv.Entries.{upsert}
use on_cloud_kv.Skiplist.{
  Heap, Skiplist, Update, head, fill_update, match_node, insert_node, max_level,
}
use on_cloud_kv.Skiplist.Links.{first, Distinct, All-map, All-split, All-last}
use on_cloud_kv.Skiplist.Search.{
  at_least, All-at_least, above, below, below-append-above, before, IsLinked-split, IsSorted,
  AllBelow-below, NoneBelow-above,
}
use on_cloud_kv.Skiplist.Invariant.{Represents, entries_of, before-top}
use on_cloud_kv.Skiplist.Linked.{IsLinked-All, IsSorted-new, entries_new, low_new}
use on_cloud_kv.Skiplist.Place.{fill_update_at, no_match_greater, IsSorted-Distinct, All-insert}

IsSorted-back : (h : Heap) (xs ys : List ℕ) → IsSorted h (xs ++ ys) → IsSorted h ys
IsSorted-back h [] ys s = s
IsSorted-back h (x ∷ xs) ys s = IsSorted-back h xs ys s.1

-- The `update` array that the insertion of a node of level `lvl` reads.
full_update :
    (h : Heap) (k : Key) (ids : List ℕ) (level lvl : ℕ) (update : Update)
    → All (λ x. (h x).height ≤ level) ids
    → ((m : ℕ) → update m ≡ (if leb m level then some (before h k ids m) else none))
    → (m : ℕ) → m < suc lvl
    → (if ltb level lvl then fill_update (lvl - level) (suc level) update else update) m
      ≡ some (before h k ids m)
full_update h k ids level lvl update low filled m lt = elim (Bool-cases (leb m level)) [
  | inl le ↦ ground (arith, filled m, fill_update_at (lvl - level) (suc level) update m)
  | inr gt ↦
      let top : before h k ids m ≡ head = before-top h k ids level m (ground arith) low in
      ground (arith, fill_update_at (lvl - level) (suc level) update m)
]

-- Putting a node of any level up to `maxLevel` behind a search that found nothing keeps the list
-- well-formed, and puts the entry in its place.
pub insert_node-Represents :
    (s : Skiplist) (es : List Entry) (update : Update) (lvl : ℕ) (e : Entry) (r : Represents s es)
    → ((m : ℕ) → update m ≡ (if leb m s.level then some (before s.node e.key r.ids m) else none))
    → match_node s.node e.key (first (above s.node e.key r.ids)) ≡ none
    → lvl ≤ max_level
    → Represents (insert_node s update lvl e) (upsert e es)
unfolding insert_node
insert_node-Represents s es update lvl e r filled missing bound =
    let v = r.valid in
    let xs = below s.node e.key r.ids in
    let ys = above s.node e.key r.ids in
    let n = s.next_node in
    let u = before s.node e.key r.ids in
    let both = below-append-above s.node e.key r.ids in
    let update' =
      if ltb s.level lvl then fill_update (lvl - s.level) (suc s.level) update else update in
    let present : (m : ℕ) → m < suc lvl → update' m ≡ some (u m) =
      full_update s.node e.key r.ids s.level lvl update v.low filled in
    let new : All (λ x. x ≢ n) (head ∷ xs ++ ys) = (
      λ q. omega (arith, v.room),
      rw both (All-map (λ x. (0 < x) × (x < n)) (λ x. x ≢ n) r.ids (λ x q. omega arith) v.used),
    ) in
    let distinct : Distinct (head ∷ xs ++ ys) = (
      rw both (All-map (λ x. (0 < x) × (x < n)) (λ x. head ≢ x) r.ids (λ x q. omega arith) v.used),
      rw both (IsSorted-Distinct s.node r.ids v.sorted),
    ) in
    let (newx, newy) = All-split (λ x. x ≢ n) xs ys new.1 in
    let apart : (m : ℕ) → u m ≢ n = λ m.
      All-last (λ x. x ≢ n) head (at_least s.node m xs) new.0
        (All-at_least s.node (λ x. x ≢ n) m xs newx) in
    let behind : All (λ y. key_ltb e.key (s.node y).entry.key ≡ true) ys =
      no_match_greater s.node e.key ys (IsSorted-back s.node xs ys (rw both v.sorted))
        (NoneBelow-above s.node e.key r.ids v.sorted) missing in
    let count : length (xs ++ n ∷ ys) ≡ suc (length r.ids) = omega (
      arith,
      length-append xs ys,
      length-append xs (n ∷ ys),
      ap (λ (zs : List ℕ). length zs) both,
    ) in
    let l = if ltb s.level lvl then lvl else s.level in
    record {
      ids = xs ++ n ∷ ys;
      valid = record {
        linked =
            IsLinked-All s.node n lvl e update' u present apart xs ys
              (λ j. IsLinked-split s.node e.key r.ids j v.linked) distinct new (λ j. refl);
        sorted =
            IsSorted-new s.node n lvl e update' u present apart xs ys (rw both v.sorted)
              (AllBelow-below s.node e.key r.ids) behind newx newy;
        used =
            All-insert (λ x. (0 < x) × (x < suc n)) n xs ys (omega (arith, v.room))
              (rw both (
                All-map (λ x. (0 < x) × (x < n)) (λ x. (0 < x) × (x < suc n)) r.ids
                  (λ x q. omega arith) v.used));
        low =
            low_new s.node n lvl e update' u present apart s.level l xs ys (ground arith)
              (ground arith) (rw both v.low) new.1;
        room = omega (arith, v.room, count);
        counted = omega (arith, v.counted, count);
        bounded = ground (arith, v.bounded);
      };
      same =
          entries_new s.node n lvl e update' u present apart xs ys
            (AllBelow-below s.node e.key r.ids) behind newx newy
          ∙ ap (λ (zs : List ℕ). upsert e (entries_of s.node zs)) both
          ∙ ap (upsert e) r.same;
    }
