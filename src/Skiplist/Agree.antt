-- ===== src/Skiplist/Agree.antt =====
-- internal/storage/skiplist/skiplist.go: facts on nodes carry over to a heap in which they are the same.
use on_cloud_kv.Prelude.{ℕ, ◌≤◌, ◌≡◌, ◌≢◌, refl, true, List, [], ◌∷◌, arith, All}
use on_cloud_kv.Keys.{Key, key_ltb, key_lt_irrefl}
use on_cloud_kv.Skiplist.{Heap}
use on_cloud_kv.Skiplist.Search.{at_least, IsSorted}

pub All-of {ℓ} : {P : ℕ → Type ℓ} (xs : List ℕ) → ((x : ℕ) → P x) → All P xs
All-of [] k = tt
All-of (x ∷ xs) k = (k x, All-of xs k)

module _ (g h : Heap) where
  pub at_least-agree :
      (j : ℕ) (xs : List ℕ)
      → All (λ x. (g x).height ≡ (h x).height) xs
      → at_least g j xs ≡ at_least h j xs
  at_least-agree j [] a = refl
  at_least-agree j (x ∷ xs) a = rw (a.0, at_least-agree j xs a.1)

  keys_agree :
      (k : Key) (xs : List ℕ)
      → All (λ x. (g x).entry.key ≡ (h x).entry.key) xs
      → All (λ y. key_ltb k (h y).entry.key ≡ true) xs
      → All (λ y. key_ltb k (g y).entry.key ≡ true) xs
  keys_agree k [] a s = tt
  keys_agree k (x ∷ xs) a s = (rw a.0 s.0, keys_agree k xs a.1 s.1)

  pub IsSorted-agree :
      (xs : List ℕ)
      → All (λ x. (g x).entry.key ≡ (h x).entry.key) xs
      → IsSorted h xs
      → IsSorted g xs
  IsSorted-agree [] a s = tt
  IsSorted-agree (x ∷ xs) a s =
      (rw a.0 (keys_agree (h x).entry.key xs a.1 s.0), IsSorted-agree xs a.1 s.1)

  pub low-agree :
      (l m : ℕ) (xs : List ℕ)
      → l ≤ m
      → All (λ x. (g x).height ≡ (h x).height) xs
      → All (λ x. (h x).height ≤ l) xs
      → All (λ x. (g x).height ≤ m) xs
  low-agree l m [] le a s = tt
  low-agree l m (x ∷ xs) le a s = (omega (arith, a.0, s.0), low-agree l m xs le a.1 s.1)

-- Nodes with greater keys are other nodes.
pub greater_distinct :
    (h : Heap) (x : ℕ) (xs : List ℕ)
    → All (λ y. key_ltb (h x).entry.key (h y).entry.key ≡ true) xs
    → All (λ y. x ≢ y) xs
greater_distinct h x [] a = tt
greater_distinct h x (y ∷ ys) a =
    (λ e. cc (a.0, e, key_lt_irrefl (h x).entry.key), greater_distinct h x ys a.1)
