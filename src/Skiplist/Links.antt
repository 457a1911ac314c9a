-- ===== src/Skiplist/Links.antt =====
-- internal/storage/skiplist/skiplist.go: one level of the list, a chain of pointers through some nodes.
use on_cloud_kv.Prelude.{
  ℕ, ◌≡◌, ◌≢◌, refl, sym, ◌∙◌, Option, none, some, List, [], ◌∷◌, ◌++◌, arith, ◌==◌, All,
  if◌then◌else◌,
}

-- From `p`, the pointers of `f` lead through `xs` and end.
abbrev pub Links : (ℕ → Option ℕ) → ℕ → List ℕ → Type 0
Links f p [] = f p ≡ none
Links f p (x ∷ xs) = (f p ≡ some x) × Links f x xs

-- The last of a list of nodes, `p` before it.
abbrev pub last : ℕ → List ℕ → ℕ
last p [] = p
last p (x ∷ xs) = last x xs

abbrev pub first : List ℕ → Option ℕ
first [] = none
first (x ∷ xs) = some x

abbrev pub Distinct : List ℕ → Type 0
Distinct [] = Unit
Distinct (x ∷ xs) = All (λ y. x ≢ y) xs × Distinct xs

pub last-append : (p : ℕ) (xs ys : List ℕ) → last p (xs ++ ys) ≡ last (last p xs) ys
last-append p [] ys = refl
last-append p (x ∷ xs) ys = last-append x xs ys

pub Links-drop :
    (f : ℕ → Option ℕ) (p : ℕ) (xs ys : List ℕ) → Links f p (xs ++ ys) → Links f (last p xs) ys
Links-drop f p [] ys h = h
Links-drop f p (x ∷ xs) ys h = Links-drop f x xs ys h.1

-- What follows a node is the first of the nodes behind it.
pub Links-first : (f : ℕ → Option ℕ) (p : ℕ) (ys : List ℕ) → Links f p ys → f p ≡ first ys
Links-first f p [] h = h
Links-first f p (y ∷ ys) h = h.0

-- A chain reads the pointers of its nodes alone.
pub Links-same :
    (f g : ℕ → Option ℕ) (p : ℕ) (xs : List ℕ)
    → g p ≡ f p
    → All (λ x. g x ≡ f x) xs
    → Links f p xs
    → Links g p xs
Links-same f g p [] e h l = e ∙ l
Links-same f g p (x ∷ xs) e h l = (e ∙ l.0, Links-same f g x xs h.0 h.1 l.1)

pub All-map : (P Q : ℕ → Type 0) (xs : List ℕ) → ((x : ℕ) → P x → Q x) → All P xs → All Q xs
All-map P Q [] k h = tt
All-map P Q (x ∷ xs) k h = (k x h.0, All-map P Q xs k h.1)

pub All-last : (P : ℕ → Type 0) (p : ℕ) (xs : List ℕ) → P p → All P xs → P (last p xs)
All-last P p [] hp h = hp
All-last P p (x ∷ xs) hp h = All-last P x xs h.0 h.1

pub All-split : (P : ℕ → Type 0) (xs ys : List ℕ) → All P (xs ++ ys) → All P xs × All P ys
All-split P [] ys h = (tt, h)
All-split P (x ∷ xs) ys h = let (a, b) = All-split P xs ys h.1 in ((h.0, a), b)

-- The pointers after a new node `n` was put behind `q`.
abbrev pub relink : (ℕ → Option ℕ) → ℕ → ℕ → ℕ → Option ℕ
relink f n q x = if x == q then some n else if x == n then f q else f x

relink_same : (f : ℕ → Option ℕ) (n q x : ℕ) → q ≢ x → x ≢ n → relink f n q x ≡ f x
relink_same f n q x a b = ground arith

relink_others :
    (f : ℕ → Option ℕ) (n q : ℕ) (ys : List ℕ)
    → All (λ y. q ≢ y) ys
    → All (λ y. y ≢ n) ys
    → All (λ y. relink f n q y ≡ f y) ys
relink_others f n q [] d new = tt
relink_others f n q (y ∷ ys) d new =
    (relink_same f n q y d.0 new.0, relink_others f n q ys d.1 new.1)

-- The part of the chain behind the new node.
relink_behind :
    (f : ℕ → Option ℕ) (n p : ℕ) (ys : List ℕ)
    → Links f p ys
    → p ≢ n
    → All (λ y. p ≢ y) ys
    → All (λ y. y ≢ n) ys
    → Links (relink f n p) n ys
relink_behind f n p [] l hp d new = ground arith
relink_behind f n p (y ∷ ys) l hp d new = (
  ground arith,
  Links-same f (relink f n p) y ys (relink_same f n p y d.0 new.0)
      (relink_others f n p ys d.1 new.1) l.1,
)

-- Putting a new node behind the last of `xs` makes a chain through it.
pub Links-relink :
    (f : ℕ → Option ℕ) (n p : ℕ) (xs ys : List ℕ)
    → Links f p (xs ++ ys)
    → Distinct (p ∷ xs ++ ys)
    → All (λ x. x ≢ n) (p ∷ xs ++ ys)
    → Links (relink f n (last p xs)) p (xs ++ n ∷ ys)
Links-relink f n p [] ys l d new = (ground arith, relink_behind f n p ys l new.0 d.0 new.1)
Links-relink f n p (x ∷ xs) ys l d new =
    let apart : p ≢ last x xs =
      All-last (λ y. p ≢ y) x xs d.0.0 (All-split (λ y. p ≢ y) xs ys d.0.1).0 in
    (
      relink_same f n (last x xs) p (λ e. apart (sym e)) new.0 ∙ l.0,
      Links-relink f n x xs ys l.1 d.1 new.1,
    )
