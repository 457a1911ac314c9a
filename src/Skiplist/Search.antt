-- ===== src/Skiplist/Search.antt =====
-- internal/storage/skiplist/skiplist.go: the descent finds the last node before a key, at every level.
use on_cloud_kv.Prelude.{
  ℕ, zero, suc, ◌+◌, ◌≤◌, ◌<◌, ◌≡◌, refl, sym, ◌∙◌, true, false, some, List, [], ◌∷◌, ◌++◌,
  append_assoc, append-nil, arith, leb, ◌==◌, All, All-append, length, length-append, if◌then◌else◌,
  Bool-cases, inl, inr,
}
use on_cloud_kv.Keys.{Key, key_ltb, key_lt_trans}
use on_cloud_kv.Skiplist.{Heap, walk, search, search_update, set_update, Update, head}
use on_cloud_kv.Skiplist.Links.{Links, last, last-append, Links-drop}

module _ (h : Heap) where
  -- The nodes that take part in level j.
  abbrev pub at_least : ℕ → List ℕ → List ℕ
  at_least j [] = []
  at_least j (x ∷ xs) = let rest = at_least j xs in if leb j (h x).height then x ∷ rest else rest

  abbrev pub key_of : ℕ → Key
  key_of x = (h x).entry.key

  -- The keys rise strictly.
  abbrev pub IsSorted : List ℕ → Type 0
  IsSorted [] = Unit
  IsSorted (x ∷ xs) = All (λ y. key_ltb (key_of x) (key_of y) ≡ true) xs × IsSorted xs

  -- The nodes before a key, and those from it on.
  abbrev pub below : Key → List ℕ → List ℕ
  below k [] = []
  below k (x ∷ xs) = let rest = below k xs in if key_ltb (key_of x) k then x ∷ rest else []

  abbrev pub above : Key → List ℕ → List ℕ
  above k [] = []
  above k (x ∷ xs) = let rest = above k xs in if key_ltb (key_of x) k then rest else x ∷ xs

  abbrev pub AllBelow : Key → List ℕ → Type 0
  AllBelow k = All (λ x. key_ltb (key_of x) k ≡ true)

  abbrev pub NoneBelow : Key → List ℕ → Type 0
  NoneBelow k = All (λ x. key_ltb (key_of x) k ≡ false)

  pub below-append-above : (k : Key) (xs : List ℕ) → below k xs ++ above k xs ≡ xs
  below-append-above k [] = refl
  below-append-above k (x ∷ xs) = ground (arith, below-append-above k xs)

  pub AllBelow-below : (k : Key) (xs : List ℕ) → AllBelow k (below k xs)
  AllBelow-below k [] = tt
  AllBelow-below k (x ∷ xs) = elim (Bool-cases (key_ltb (key_of x) k)) [
    | inl e ↦ rw e (e, AllBelow-below k xs)
    | inr e ↦ rw e tt
  ]

  greater_not_below :
      (k : Key) (x : ℕ) (xs : List ℕ)
      → key_ltb (key_of x) k ≡ false
      → All (λ y. key_ltb (key_of x) (key_of y) ≡ true) xs
      → NoneBelow k xs
  greater_not_below k x [] e h' = tt
  greater_not_below k x (y ∷ ys) e h' =
      (ground (arith, key_lt_trans (key_of x) (key_of y) k), greater_not_below k x ys e h'.1)

  pub NoneBelow-above : (k : Key) (xs : List ℕ) → IsSorted xs → NoneBelow k (above k xs)
  NoneBelow-above k [] s = tt
  NoneBelow-above k (x ∷ xs) s = elim (Bool-cases (key_ltb (key_of x) k)) [
    | inl e ↦ rw e (NoneBelow-above k xs s.1)
    | inr e ↦ rw e (e, greater_not_below k x xs e s.0)
  ]

  pub at_least-append :
      (j : ℕ) (xs ys : List ℕ) → at_least j (xs ++ ys) ≡ at_least j xs ++ at_least j ys
  at_least-append j [] ys = refl
  at_least-append j (x ∷ xs) ys = elim (Bool-cases (leb j (h x).height)) [
    | inl e ↦ rw (e, at_least-append j xs ys)
    | inr e ↦ rw (e, at_least-append j xs ys)
  ]

  pub at_least-zero : (xs : List ℕ) → at_least 0 xs ≡ xs
  at_least-zero [] = refl
  at_least-zero (x ∷ xs) = rw (le_zero (h x).height, at_least-zero xs)
    where
      le_zero : (n : ℕ) → leb 0 n ≡ true
      le_zero n = ground arith

  pub All-at_least : (P : ℕ → Type 0) (j : ℕ) (xs : List ℕ) → All P xs → All P (at_least j xs)
  All-at_least P j [] a = tt
  All-at_least P j (x ∷ xs) a = elim (Bool-cases (leb j (h x).height)) [
    | inl e ↦ rw e (a.0, All-at_least P j xs a.1)
    | inr e ↦ rw e (All-at_least P j xs a.1)
  ]

  pub at_least-empty :
      (l j : ℕ) (xs : List ℕ) → l < j → All (λ x. (h x).height ≤ l) xs → at_least j xs ≡ []
  at_least-empty l j [] lt a = refl
  at_least-empty l j (x ∷ xs) lt a = rw (too_high (h x).height a.0) (at_least-empty l j xs lt a.1)
    where
      too_high : (n : ℕ) → n ≤ l → leb j n ≡ false
      too_high n le = ground arith

  -- The inner loop stops at the last node of the level before the key.
  walk_lem :
      (k : Key) (i fuel p : ℕ) (xs ys : List ℕ)
      → Links (λ x. (h x).forward i) p (xs ++ ys)
      → AllBelow k xs
      → NoneBelow k ys
      → length xs ≤ fuel
      → walk h k i fuel p ≡ last p xs
  unfolding walk
  walk_lem k i zero p [] ys l b a f = refl
  walk_lem k i zero p (x ∷ xs) ys l b a f = absurd (omega arith)
  walk_lem k i (suc fuel) p [] [] l b a f = rw (l, walk)
  walk_lem k i (suc fuel) p [] (y ∷ ys) l b a f = rw (l.0, walk) (rw a.0)
  walk_lem k i (suc fuel) p (x ∷ xs) ys l b a f =
      rw (l.0, walk) (rw b.0 (walk_lem k i fuel x xs ys l.1 b.1 a (omega arith)))

  one_less : (i n : ℕ) → leb (suc i) n ≡ true → leb i n ≡ true
  one_less i n e = ground arith

  -- From the last node of the level above, the walk goes on to the last node of this level.
  walk_from_above :
      (k : Key) (i fuel p : ℕ) (mid xs ys : List ℕ)
      → Links (λ x. (h x).forward i) p (mid ++ (at_least i xs ++ ys))
      → AllBelow k mid
      → AllBelow k xs
      → NoneBelow k ys
      → length mid + length xs ≤ fuel
      → walk h k i fuel (last p (at_least (suc i) xs)) ≡ last p (mid ++ at_least i xs)
  walk_from_above k i fuel p mid [] ys l m b a f =
      rw append-nil (walk_lem k i fuel p mid ys l m a (omega arith))
  walk_from_above k i fuel p mid (x ∷ xs) ys l m b a f =
      elim (Bool-cases (leb (suc i) (h x).height)) [
        | inl e ↦
            let e' = one_less i (h x).height e in
            rw (e, e')
              (walk_from_above k i fuel x [] xs ys
                  (Links-drop (λ z. (h z).forward i) p mid (x ∷ (at_least i xs ++ ys))
                    (rw e' at l)).1
                  tt b.1 a (omega arith)
                ∙ sym (last-append p mid (x ∷ at_least i xs)))
        | inr e ↦ rw e (elim (Bool-cases (leb i (h x).height)) [
          | inl e' ↦ rw e' (
              walk_from_above k i fuel p (mid ++ x ∷ []) xs ys (rw append_assoc (rw e' at l))
                (All-append (λ z. key_ltb (key_of z) k ≡ true) mid (x ∷ []) m (b.0, tt)) b.1 a
                (omega (arith, length-append mid (x ∷ [])))
              ∙ rw append_assoc refl)
          | inr e' ↦ rw e' (walk_from_above k i fuel p mid xs ys (rw e' at l) m b.1 a (omega arith))
        ])
      ]

  -- The last node of level i before the key, or the head.
  abbrev pub before : Key → List ℕ → ℕ → ℕ
  before k ids i = last head (at_least i (below k ids))

  length-below : (k : Key) (xs : List ℕ) → length (below k xs) ≤ length xs
  length-below k [] = omega arith
  length-below k (x ∷ xs) = ground (arith, length-below k xs)

  -- Every level leads through the nodes that take part in it.
  abbrev pub IsLinked : List ℕ → Type 0
  IsLinked ids = (i : ℕ) → Links (λ x. (h x).forward i) head (at_least i ids)

  pub IsLinked-split :
      (k : Key) (ids : List ℕ) (i : ℕ)
      → IsLinked ids
      → Links (λ x. (h x).forward i) head (at_least i (below k ids) ++ at_least i (above k ids))
  IsLinked-split k ids i l =
      rw (← at_least-append i (below k ids) (above k ids), below-append-above k ids) (l i)

update_zero :
    (f : ℕ → ℕ) (u : Update) (j : ℕ)
    → (if j == 0 then some (f 0) else u j) ≡ (if leb j 0 then some (f j) else u j)
update_zero f u j = ground arith

update_suc :
    (f : ℕ → ℕ) (u : Update) (i j : ℕ)
    → (if leb j i then some (f j) else if j == suc i then some (f (suc i)) else u j)
      ≡ (if leb j (suc i) then some (f j) else u j)
update_suc f u i j = ground arith

search_update-suc :
    (h : Heap) (fuel : ℕ) (k : Key) (i cur : ℕ) (u : Update)
    → search_update h fuel k (suc i) cur u
      ≡ search_update h fuel k i
          (walk h k (suc i) fuel cur)
          (set_update u (suc i) (walk h k (suc i) fuel cur))
unfolding search_update
search_update-suc h fuel k i cur u = refl

module _ (h : Heap) (ids : List ℕ) (k : Key) (fuel : ℕ) (linked : IsLinked h ids)
    (sorted : IsSorted h ids) (enough : length ids ≤ fuel) where
  walk-before : (i : ℕ) → walk h k i fuel (before h k ids (suc i)) ≡ before h k ids i
  walk-before i =
      walk_from_above h k i fuel head [] (below h k ids) (at_least h i (above h k ids))
        (IsLinked-split h k ids i linked) tt (AllBelow-below h k ids)
        (All-at_least h (λ x. key_ltb (key_of h x) k ≡ false) i (above h k ids)
          (NoneBelow-above h k ids sorted))
        (omega (arith, length-below h k ids))

  pub search-before : (i : ℕ) → search h fuel k i (before h k ids (suc i)) ≡ before h k ids 0
  unfolding search
  search-before zero = walk-before 0
  search-before (suc i) = rw (walk-before (suc i)) (search-before i)

  pub search_update-before :
      (i : ℕ) (update : Update)
      → (search_update h fuel k i (before h k ids (suc i)) update).0 ≡ before h k ids 0
  unfolding search_update
  search_update-before zero update = walk-before 0
  search_update-before (suc i) update =
      rw (search_update-suc, walk-before (suc i)) (search_update-before i _)

  pub search_update-at :
      (i : ℕ) (update : Update) (j : ℕ)
      → (search_update h fuel k i (before h k ids (suc i)) update).1 j
        ≡ (if leb j i then some (before h k ids j) else update j)
  unfolding search_update
  search_update-at zero update j = rw (walk-before 0) (update_zero (before h k ids) update j)
  search_update-at (suc i) update j =
      rw (search_update-suc, walk-before (suc i))
        (search_update-at i (set_update update (suc i) (before h k ids (suc i))) j
          ∙ update_suc (before h k ids) update i j)
