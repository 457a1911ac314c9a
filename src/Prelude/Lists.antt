-- ===== src/Prelude/Lists.antt =====
-- Lists measured by native numbers, predicates on every element, and reads of a byte stream.
use Prim.Native.Nat.{ℕ, zero, suc, ◌+◌, ◌-◌, ◌≤◌, ◌<◌}
use native.Mathlib.Nat.{sub-zero, suc-sub-suc}
use mathlib.Core.Path.{◌≡◌, refl, ap}
use mathlib.Core.List.{List, [], ◌∷◌, ◌++◌}
use mathlib.Core.Option.{Option, none, some}
use native.Mathlib.Omega.{arith}

module _ {ℓ} {A : Type ℓ} where
  abbrev pub length : List A → ℕ
  length [] = 0
  length (x ∷ xs) = suc (length xs)

  abbrev pub get_elem? : List A → ℕ → Option A
  get_elem? [] i = none
  get_elem? (x ∷ xs) zero = some x
  get_elem? (x ∷ xs) (suc i) = get_elem? xs i

  abbrev pub get_or : List A → ℕ → A → A
  get_or [] i d = d
  get_or (x ∷ xs) zero d = x
  get_or (x ∷ xs) (suc i) d = get_or xs i d

  -- A write out of bounds changes nothing.
  abbrev pub set : List A → ℕ → A → List A
  set [] i v = []
  set (x ∷ xs) zero v = v ∷ xs
  set (x ∷ xs) (suc i) v = x ∷ set xs i v

  abbrev pub drop : ℕ → List A → List A
  drop zero xs = xs
  drop (suc n) [] = []
  drop (suc n) (x ∷ xs) = drop n xs

  abbrev pub replicate : ℕ → A → List A
  replicate zero a = []
  replicate (suc n) a = a ∷ replicate n a

  abbrev pub take : ℕ → List A → List A
  take zero xs = []
  take (suc n) [] = []
  take (suc n) (x ∷ xs) = x ∷ take n xs

  pub length-append : (xs ys : List A) → length (xs ++ ys) ≡ length xs + length ys
  length-append [] ys = omega arith
  length-append (x ∷ xs) ys = omega (arith, length-append xs ys)

  pub drop-append : (xs ys : List A) → drop (length xs) (xs ++ ys) ≡ ys
  drop-append [] ys = refl
  drop-append (x ∷ xs) ys = drop-append xs ys

  pub length-take : (n : ℕ) (xs : List A) → n ≤ length xs → length (take n xs) ≡ n
  length-take zero xs h = refl
  length-take (suc n) [] h = absurd (omega arith)
  length-take (suc n) (x ∷ xs) h = omega (arith, length-take n xs)

  pub take_all : (n : ℕ) (xs : List A) → length xs ≤ n → take n xs ≡ xs
  take_all zero [] h = refl
  take_all (suc n) [] h = refl
  take_all zero (x ∷ xs) h = absurd (omega arith)
  take_all (suc n) (x ∷ xs) h = ap (λ ys. x ∷ ys) (take_all n xs (omega arith))

  pub take-append :
      (n : ℕ) (xs ys : List A) → length xs ≤ n → take n (xs ++ ys) ≡ xs ++ take (n - length xs) ys
  take-append n [] ys h = rw sub-zero
  take-append zero (x ∷ xs) ys h = absurd (omega arith)
  take-append (suc n) (x ∷ xs) ys h = rw (suc-sub-suc, take-append n xs ys (omega arith))

  -- `io.ReadFull` of n items from a stream: the items and the rest, or nothing if too few are left.
  unfoldable pub read_full : ℕ → List A → Option (List A × List A)
  read_full zero xs = some ([], xs)
  read_full (suc n) [] = none
  read_full (suc n) (x ∷ xs) = elim (read_full n xs) [
    | none ↦ none
    | some (ys, rest) ↦ some (x ∷ ys, rest)
  ]

  pub read_full-append :
      (xs ys : List A) (n : ℕ) → n ≡ length xs → read_full n (xs ++ ys) ≡ some (xs, ys)
  unfolding read_full
  read_full-append [] ys zero h = refl
  read_full-append [] ys (suc n) h = absurd (omega arith)
  read_full-append (x ∷ xs) ys zero h = absurd (omega arith)
  read_full-append (x ∷ xs) ys (suc n) h = ground (arith, read_full-append xs ys n)

  pub read_full_short : (n : ℕ) (xs : List A) → length xs < n → read_full n xs ≡ none
  unfolding read_full
  read_full_short zero xs h = absurd (omega arith)
  read_full_short (suc n) [] h = refl
  read_full_short (suc n) (x ∷ xs) h = ground (arith, read_full_short n xs)

  -- What a read hands over and what it leaves are as long as the stream was.
  pub length-read_full :
      (n : ℕ) (xs ys rest : List A)
      → read_full n xs ≡ some (ys, rest)
      → (length ys ≡ n) × (length xs ≡ n + length rest)
  unfolding read_full
  length-read_full zero xs ys rest h = ground arith
  length-read_full (suc n) [] ys rest h = ground arith
  length-read_full (suc n) (x ∷ xs) ys rest h =
      elim (read_full n xs)
          as (λ o.
            read_full n xs ≡ o → (length ys ≡ suc n) × (suc (length xs) ≡ suc n + length rest)) [
              | none ↦ λ e. ground arith
              | some (zs, r) ↦ λ e. ground (arith, length-read_full n xs zs r e)
            ]
        refl

module _ {ℓ κ} {A : Type ℓ} where
  -- A predicate by recursion computes to tuples, which the tactics read and build.
  abbrev pub All : (A → Type κ) → List A → Type κ
  All P [] = Unit
  All P (x ∷ xs) = P x × All P xs

  pub All-append : (P : A → Type κ) (xs ys : List A) → All P xs → All P ys → All P (xs ++ ys)
  All-append P [] ys hx hy = hy
  All-append P (x ∷ xs) ys hx hy = (hx.0, All-append P xs ys hx.1 hy)

-- The elements of a list, in their order, in another.
pub data Within {ℓ} {A : Type ℓ} : List A → List A → Type ℓ where
  within_nil : {ys : List A} → Within [] ys
  within_take : {x : A} {xs ys : List A} → Within xs ys → Within (x ∷ xs) (x ∷ ys)
  within_pass : {y : A} {xs ys : List A} → Within xs ys → Within xs (y ∷ ys)

pub Within-pass {ℓ} :
    {A : Type ℓ} {us vs : List A} (ys : List A) → Within us vs → Within us (ys ++ vs)
Within-pass [] q = q
Within-pass (y ∷ ys) q = within_pass (Within-pass ys q)

pub Within-refl {ℓ} : {A : Type ℓ} (xs : List A) → Within xs xs
Within-refl [] = within_nil
Within-refl (x ∷ xs) = within_take (Within-refl xs)

pub Within-append {ℓ} :
    {A : Type ℓ} {xs ys us vs : List A} → Within xs ys → Within us vs → Within (xs ++ us) (ys ++ vs)
Within-append (within_nil {ys}) q = Within-pass ys q
Within-append (within_take p) q = within_take (Within-append p q)
Within-append (within_pass p) q = within_pass (Within-append p q)
