-- ===== src/Skiplist/Range.antt =====
-- internal/storage/skiplist/skiplist.go: what `Scan`, `All` and `Len` return.
use on_cloud_kv.Prelude.{
  ℕ, zero, suc, ◌+◌, ◌-◌, ◌≤◌, ◌<◌, ◌≡◌, refl, sym, ap, ◌∙◌, true, false, ◌&&◌, ◌||◌, some, List,
  [], ◌∷◌, ◌++◌, append_assoc, append-nil, arith, ltb, leb, length, take, if◌then◌else◌, Bool-cases,
  inl, inr, length-append,
}
use on_cloud_kv.Keys.{Key, key_ltb, key_eqb}
use on_cloud_kv.Entry.{Entry}
use on_cloud_kv.Entries.{from}
use on_cloud_kv.Skiplist.{Heap, Skiplist, head, past_end, scan_loop, scan, all_loop, all}
use on_cloud_kv.Skiplist.Links.{Links, Links-drop}
use on_cloud_kv.Skiplist.Search.{
  at_least, above, below, before, at_least-zero, IsLinked, IsLinked-split,
}
use on_cloud_kv.Skiplist.Invariant.{Represents, entries_of, search-head}

-- The entries before the end of a range; an empty end is none.
abbrev pub until : Key → List Entry → List Entry
until [] xs = xs
until (b ∷ bs) [] = []
until (b ∷ bs) (x ∷ xs) =
    let rest = until (b ∷ bs) xs in if key_ltb x.key (b ∷ bs) then x ∷ rest else []

until_nil : (end : Key) → until end [] ≡ []
until_nil [] = refl
until_nil (b ∷ bs) = refl

until_cons :
    (end : Key) (x : Entry) (xs : List Entry)
    → until end (x ∷ xs) ≡ (if past_end end x.key then [] else x ∷ until end xs)
unfolding past_end key_eqb
until_cons [] x xs = refl
until_cons (b ∷ bs) x xs = elim (Bool-cases (key_ltb x.key (b ∷ bs))) [
  | inl low ↦ rw low
  | inr past ↦ rw past
]

-- The first entries, as many as a limit leaves after `taken` of them; a limit of 0 is none.
abbrev pub limited : ℕ → ℕ → List Entry → List Entry
limited limit taken xs = if ltb 0 limit then take (limit - taken) xs else xs

take_nil : (m : ℕ) → take {A = Entry} m [] ≡ []
take_nil zero = refl
take_nil (suc m) = refl

limited_nil : (limit n : ℕ) → limited limit n [] ≡ []
limited_nil limit n = elim (Bool-cases (ltb 0 limit)) [
  | inl e ↦ rw e (take_nil (limit - n))
  | inr e ↦ rw e
]

limited_stop :
    (limit n : ℕ) (ys : List Entry) → (ltb 0 limit && leb limit n) ≡ true → limited limit n ys ≡ []
limited_stop limit n ys e = ground (arith, take_none (limit - n) (ground arith))
  where
    take_none : (m : ℕ) → m ≡ 0 → take m ys ≡ []
    take_none zero q = refl
    take_none (suc m) q = absurd (omega arith)

limited_more :
    (limit n : ℕ) (y : Entry) (ys : List Entry)
    → (ltb 0 limit && leb limit n) ≡ false
    → limited limit n (y ∷ ys) ≡ y ∷ limited limit (n + 1) ys
limited_more limit n y ys e = elim (Bool-cases (ltb 0 limit)) [
  | inl pos ↦ let open_ : limit - n ≡ suc (limit - (n + 1)) = ground arith in rw (pos, open_)
  | inr free ↦ rw free
]

module _ (h : Heap) where
  all_loop_lem :
      (fuel p : ℕ) (results : List Entry) (xs : List ℕ)
      → Links (λ x. (h x).forward 0) p xs
      → length xs < fuel
      → all_loop h fuel results ((h p).forward 0) ≡ results ++ entries_of h xs
  unfolding all_loop
  all_loop_lem zero p results xs l f = absurd (omega arith)
  all_loop_lem (suc fuel) p results [] l f = rw (l, append-nil)
  all_loop_lem (suc fuel) p results (x ∷ xs) l f = rw l.0 (
      all_loop_lem fuel x (results ++ (h x).entry ∷ []) xs l.1 (omega arith)
      ∙ append_assoc results ((h x).entry ∷ []) (entries_of h xs))

  scan_loop_step :
      (end : Key) (limit fuel : ℕ) (results : List Entry) (n : ℕ)
      → scan_loop h end limit (suc fuel) results (some n) ≡ (
          if past_end end (h n).entry.key || (ltb 0 limit && leb limit (length results))
          then results
          else scan_loop h end limit fuel (results ++ (h n).entry ∷ []) ((h n).forward 0))
  unfolding scan_loop
  scan_loop_step end limit fuel results n = ground arith

  scan_loop_lem :
      (end : Key) (limit fuel p : ℕ) (results : List Entry) (xs : List ℕ)
      → Links (λ x. (h x).forward 0) p xs
      → length xs < fuel
      → scan_loop h end limit fuel results ((h p).forward 0)
        ≡ results ++ limited limit (length results) (until end (entries_of h xs))
  unfolding scan_loop
  scan_loop_lem end limit zero p results xs l f = absurd (omega arith)
  scan_loop_lem end limit (suc fuel) p results [] l f =
      rw (l, until_nil end, limited_nil, append-nil)
  scan_loop_lem end limit (suc fuel) p results (x ∷ xs) l f =
      let rest = until end (entries_of h xs) in
      rw (l.0, until_cons end (h x).entry (entries_of h xs))
        (scan_loop_step end limit fuel results x
          ∙ elim (Bool-cases (past_end end (h x).entry.key)) [
            | inl past ↦ rw (past, limited_nil, append-nil)
            | inr before_end ↦
                rw before_end (elim (Bool-cases (ltb 0 limit && leb limit (length results))) [
                  | inl full ↦ rw (
                    full,
                    limited_stop limit (length results) ((h x).entry ∷ rest) full,
                    append-nil,
                  )
                  | inr more ↦
                      rw (more, limited_more limit (length results) (h x).entry rest more)
                        (scan_loop_lem end limit fuel x (results ++ (h x).entry ∷ []) xs l.1
                            (omega arith)
                          ∙ (rw (length-append results ((h x).entry ∷ []), append_assoc)))
                ])
          ])

entries_of-above :
    (h : Heap) (k : Key) (xs : List ℕ) → entries_of h (above h k xs) ≡ from k (entries_of h xs)
unfolding from
entries_of-above h k [] = refl
entries_of-above h k (x ∷ xs) = elim (Bool-cases (key_ltb (h x).entry.key k)) [
  | inl lt ↦ rw lt (entries_of-above h k xs)
  | inr ge ↦ rw ge
]

length-above : (h : Heap) (k : Key) (xs : List ℕ) → length (above h k xs) ≤ length xs
length-above h k [] = omega arith
length-above h k (x ∷ xs) = ground (arith, length-above h k xs)

length-entries_of : (h : Heap) (xs : List ℕ) → length (entries_of h xs) ≡ length xs
length-entries_of h [] = refl
length-entries_of h (x ∷ xs) = ap suc (length-entries_of h xs)

Links-above :
    (h : Heap) (k : Key) (ids : List ℕ)
    → IsLinked h ids
    → Links (λ x. (h x).forward 0) (before h k ids 0) (above h k ids)
Links-above h k ids linked =
    Links-drop (λ x. (h x).forward 0) head (at_least h 0 (below h k ids)) (above h k ids)
      (rw (at_least-zero h (above h k ids)) at (IsLinked-split h k ids 0 linked))

module _ (s : Skiplist) (es : List Entry) (r : Represents s es) where
  -- On a well-formed list of entries `Scan` returns the entries from the start on and before the
  -- end, an empty end being none, and of these the first ones up to the limit, a limit of 0 being
  -- none.
  pub scan-range :
      (start end : Key) (limit : ℕ)
      → scan s start end limit ≡ limited limit 0 (until end (from start es))
  unfolding scan
  scan-range start end limit =
      let v = r.valid in
      rw (search-head s r.ids v start) (
        scan_loop_lem s.node end limit s.next_node (before s.node start r.ids 0) []
          (above s.node start r.ids) (Links-above s.node start r.ids v.linked)
          (omega (arith, v.room, length-above s.node start r.ids))
        ∙ (rw (entries_of-above s.node start r.ids, r.same)))

  -- `All` returns every entry in the order of the keys, and `Len` counts them.
  pub all-entries : (all s ≡ es) × (s.size ≡ length es)
  unfolding all
  all-entries = (
    all_loop_lem s.node s.next_node head [] r.ids
          (rw (at_least-zero s.node r.ids) at (r.valid.linked 0)) r.valid.room
        ∙ r.same,
    r.valid.counted
        ∙ sym (length-entries_of s.node r.ids)
        ∙ ap (λ (xs : List Entry). length xs) r.same,
  )
