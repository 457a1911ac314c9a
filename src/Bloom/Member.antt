-- ===== src/Bloom/Member.antt =====
-- internal/storage/bloom/bloom.go: a filter has no false negatives.
use on_cloud_kv.Prelude.{
  ℕ, zero, suc, ◌+◌, ◌/◌, ◌%◌, ◌^◌, ◌≤◌, ◌<◌, ◌≡◌, ◌≢◌, refl, ap, ◌∙◌, true, false, some, List, [],
  ◌∷◌, bit_or, ◌==◌, get_elem?, get_or, set, replicate, length, arith, or_sets, or_keeps,
  ℕ_discrete,
}
use on_cloud_kv.Bytes.{Bytes}
use on_cloud_kv.Bloom.{
  Filter, Sizing, new, hash, position, set_bit, add_loop, add, bit_clear, contains_loop, contains,
}

-- The array has a word for each 64 of its bits, and some bits.
pub record IsValid (f : Filter) : Type 0 where
  pub some_bits : 0 < f.m
  pub words : length f.bits ≡ (f.m + 63) / 64

length-set : (xs : List ℕ) (i v : ℕ) → length (set xs i v) ≡ length xs
length-set [] i v = refl
length-set (x ∷ xs) zero v = refl
length-set (x ∷ xs) (suc i) v = ap suc (length-set xs i v)

length-replicate : (n v : ℕ) → length (replicate n v) ≡ n
length-replicate zero v = refl
length-replicate (suc n) v = ap suc (length-replicate n v)

get_or-set_self : (xs : List ℕ) (i v : ℕ) → i < length xs → get_or (set xs i v) i 0 ≡ v
get_or-set_self [] i v h = absurd (omega arith)
get_or-set_self (x ∷ xs) zero v h = refl
get_or-set_self (x ∷ xs) (suc i) v h = get_or-set_self xs i v (omega arith)

get_or-set_ne : (xs : List ℕ) (i j v : ℕ) → i ≢ j → get_or (set xs i v) j 0 ≡ get_or xs j 0
get_or-set_ne [] i j v h = refl
get_or-set_ne (x ∷ xs) zero zero v h = absurd (h refl)
get_or-set_ne (x ∷ xs) zero (suc j) v h = refl
get_or-set_ne (x ∷ xs) (suc i) zero v h = refl
get_or-set_ne (x ∷ xs) (suc i) (suc j) v h = get_or-set_ne xs i j v (λ e. h (ap suc e))

position-lt : (f : Filter) (h : ℕ × ℕ) (i : ℕ) → 0 < f.m → position f h i < f.m
unfolding position
position-lt f (h1, h2) i pos = grind arith

-- A position depends on the filter by its number of bits alone.
position_m : (f g : Filter) (h : ℕ × ℕ) (i : ℕ) → f.m ≡ g.m → position f h i ≡ position g h i
unfolding position
position_m f g (h1, h2) i e = rw e

eqb_false : (a : ℕ) → a ≢ 0 → (a == 0) ≡ false
eqb_false a ne = ground arith

clear_ne : (a : ℕ) → (a == 0) ≡ false → a ≢ 0
clear_ne a e = ground arith

bit_clear-set_bit :
    (bits : List ℕ) (p : ℕ) → p / 64 < length bits → bit_clear (set_bit bits p) p ≡ false
unfolding bit_clear set_bit
bit_clear-set_bit bits p h =
    rw (get_or-set_self bits (p / 64) (bit_or (get_or bits (p / 64) 0) (2 ^ (p % 64))) h)
      (eqb_false _ (or_sets (p % 64) (get_or bits (p / 64) 0)))

-- Setting a bit clears no other.
bit_clear-set_bit_keep :
    (bits : List ℕ) (p q : ℕ)
    → p / 64 < length bits
    → bit_clear bits q ≡ false
    → bit_clear (set_bit bits p) q ≡ false
unfolding bit_clear set_bit
bit_clear-set_bit_keep bits p q h was = elim (ℕ_discrete (p / 64) (q / 64)) [
  | yes e ↦
      rw (← e, get_or-set_self bits (p / 64) (bit_or (get_or bits (p / 64) 0) (2 ^ (p % 64))) h)
        (eqb_false _
          (or_keeps (q % 64) (get_or bits (p / 64) 0) (2 ^ (p % 64)) (clear_ne _ (rw e was))))
  | no ne ↦
      rw (get_or-set_ne bits (p / 64) (q / 64) (bit_or (get_or bits (p / 64) 0) (2 ^ (p % 64))) ne)
        was
]

set_bit-IsValid : (f : Filter) (p : ℕ) → IsValid f → IsValid (record f { bits = set_bit f.bits p })
unfolding set_bit
set_bit-IsValid f p v = record {
  some_bits = v.some_bits;
  words = length-set f.bits (p / 64) _ ∙ v.words;
}

word_in_range : (f : Filter) (h : ℕ × ℕ) (i : ℕ) → IsValid f → position f h i / 64 < length f.bits
word_in_range f h i v = omega (arith, v.words, position-lt f h i v.some_bits)

add_loop_same :
    (rounds i : ℕ) (h : ℕ × ℕ) (f : Filter)
    → ((add_loop rounds i h f).m ≡ f.m) × ((add_loop rounds i h f).k ≡ f.k)
unfolding add_loop
add_loop_same zero i h f = (refl, refl)
add_loop_same (suc rounds) i h f =
    add_loop_same rounds (suc i) h (record f { bits = set_bit f.bits (position f h i) })

add_loop-IsValid :
    (rounds i : ℕ) (h : ℕ × ℕ) (f : Filter) → IsValid f → IsValid (add_loop rounds i h f)
unfolding add_loop
add_loop-IsValid zero i h f v = v
add_loop-IsValid (suc rounds) i h f v =
    add_loop-IsValid rounds (suc i) h (record f { bits = set_bit f.bits (position f h i) })
      (set_bit-IsValid f (position f h i) v)

add_loop_keep :
    (rounds i : ℕ) (h : ℕ × ℕ) (f : Filter) (q : ℕ)
    → IsValid f
    → bit_clear f.bits q ≡ false
    → bit_clear (add_loop rounds i h f).bits q ≡ false
unfolding add_loop
add_loop_keep zero i h f q v was = was
add_loop_keep (suc rounds) i h f q v was =
    add_loop_keep rounds (suc i) h (record f { bits = set_bit f.bits (position f h i) }) q
      (set_bit-IsValid f (position f h i) v)
      (bit_clear-set_bit_keep f.bits (position f h i) q (word_in_range f h i v) was)

-- The loop of `Add` sets the bit of each of its rounds.
add_loop_sets :
    (rounds i : ℕ) (h : ℕ × ℕ) (f : Filter) (j : ℕ)
    → IsValid f
    → i ≤ j
    → j < i + rounds
    → bit_clear (add_loop rounds i h f).bits (position f h j) ≡ false
unfolding add_loop
add_loop_sets zero i h f j v lo hi = absurd (omega arith)
add_loop_sets (suc rounds) i h f j v lo hi =
    let f1 = record f { bits = set_bit f.bits (position f h i) } in
    let v1 = set_bit-IsValid f (position f h i) v in
    elim (ℕ_discrete i j) [
      | yes e ↦
          add_loop_keep rounds (suc i) h f1 (position f h j) v1
            (rw (← e) (bit_clear-set_bit f.bits (position f h i) (word_in_range f h i v)))
      | no ne ↦
          rw (position_m f f1 h j refl)
            (add_loop_sets rounds (suc i) h f1 j v1 (omega arith) (omega arith))
    ]

contains_loop_lem :
    (rounds i : ℕ) (h : ℕ × ℕ) (f : Filter)
    → ((j : ℕ) → i ≤ j → j < i + rounds → bit_clear f.bits (position f h j) ≡ false)
    → contains_loop rounds i h f ≡ true
unfolding contains_loop
contains_loop_lem zero i h f k = refl
contains_loop_lem (suc rounds) i h f k =
    rw (k i (omega arith) (omega arith), contains_loop)
      (contains_loop_lem rounds (suc i) h f (λ j lo hi. k j (omega arith) (omega arith)))

contains_loop_sound :
    (rounds i : ℕ) (h : ℕ × ℕ) (f : Filter) (j : ℕ)
    → contains_loop rounds i h f ≡ true
    → i ≤ j
    → j < i + rounds
    → bit_clear f.bits (position f h j) ≡ false
unfolding contains_loop
contains_loop_sound zero i h f j c lo hi = absurd (omega arith)
contains_loop_sound (suc rounds) i h f j c lo hi =
    let clear : bit_clear f.bits (position f h i) ≡ false = ground arith in
    elim (ℕ_discrete i j) [
      | yes e ↦ rw (← e) clear
      | no ne ↦ contains_loop_sound rounds (suc i) h f j (ground arith) (omega arith) (omega arith)
    ]

-- A key that was added is reported as a member.
contains-add : (f : Filter) (key : Bytes) → IsValid f → contains (add f key) key ≡ true
unfolding contains add add_loop
contains-add f key v =
    let (same_m, same_k) = add_loop_same f.k 0 (hash key) f in
    rw same_k (
      contains_loop_lem f.k 0 (hash key) (add_loop f.k 0 (hash key) f) (λ j lo hi.
        rw (position_m (add_loop f.k 0 (hash key) f) f (hash key) j same_m)
          (add_loop_sets f.k 0 (hash key) f j v lo hi)))

-- Adding a key keeps the members.
contains-add_keep :
    (f : Filter) (key j : Bytes) → IsValid f → contains f key ≡ true → contains (add f j) key ≡ true
unfolding contains add add_loop
contains-add_keep f key j v was =
    let g = add_loop f.k 0 (hash j) f in
    let (same_m, same_k) = add_loop_same f.k 0 (hash j) f in
    rw same_k (
      contains_loop_lem f.k 0 (hash key) g (λ i lo hi. rw (position_m g f (hash key) i same_m) (
        add_loop_keep f.k 0 (hash j) f (position f (hash key) i) v
          (contains_loop_sound f.k 0 (hash key) f i was lo hi))))

pub add-IsValid : (f : Filter) (key : Bytes) → IsValid f → IsValid (add f key)
unfolding add
add-IsValid f key v = add_loop-IsValid f.k 0 (hash key) f v

unfoldable pub add_all : Filter → List Bytes → Filter
add_all f [] = f
add_all f (key ∷ keys) = add_all (add f key) keys

add_all_keep :
    (f : Filter) (keys : List Bytes) (key : Bytes)
    → IsValid f
    → contains f key ≡ true
    → contains (add_all f keys) key ≡ true
unfolding add_all
add_all_keep f [] key v was = was
add_all_keep f (j ∷ keys) key v was =
    add_all_keep (add f j) keys key (add-IsValid f j v) (contains-add_keep f key j v was)

-- No false negatives: of a filter with some bits, every key that was added is reported as a member,
-- whatever was added before and after it.
pub contains-add_all :
    (f : Filter) (keys : List Bytes) (i : ℕ) (key : Bytes)
    → IsValid f
    → get_elem? keys i ≡ some key
    → contains (add_all f keys) key ≡ true
unfolding add_all
contains-add_all f [] i key v e = cc
contains-add_all f (j ∷ keys) zero key v e =
    let q : j ≡ key = cc in
    add_all_keep (add f j) keys key (add-IsValid f j v) (rw q (contains-add f key v))
contains-add_all f (j ∷ keys) (suc i) key v e =
    contains-add_all (add f j) keys i key (add-IsValid f j v) e

pub new-IsValid : (z : Sizing) (n : ℕ) → 0 < n → IsValid (new z n z.one_percent)
unfolding new
new-IsValid z n pos = record {
  some_bits = z.optimal_m_pos n pos;
  words = length-replicate ((z.optimal_m n z.one_percent + 63) / 64) 0;
}
