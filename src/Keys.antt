-- ===== src/Keys.antt =====
-- Go's comparisons of keys: strings are compared byte by byte. Used by the memtable, the tables and
-- the compaction.
use on_cloud_kv.Prelude.{
  ◌≡◌, ◌↔◌, refl, Bool, true, false, [], ◌∷◌, arith, ltb, ◌==◌, ◌&&◌, if◌then◌else◌, inl, inr,
  Bool-cases,
}
use on_cloud_kv.Bytes.{Bytes}

abbrev pub Key : Type 0
Key = Bytes

-- a == b
unfoldable pub key_eqb : Key → Key → Bool
key_eqb [] [] = true
key_eqb [] (y ∷ b) = false
key_eqb (x ∷ a) [] = false
key_eqb (x ∷ a) (y ∷ b) = (x == y) && key_eqb a b

-- a < b
unfoldable pub key_ltb : Key → Key → Bool
key_ltb a [] = false
key_ltb [] (y ∷ b) = true
key_ltb (x ∷ a) (y ∷ b) = if ltb x y then true else if ltb y x then false else key_ltb a b

pub key_eqb_iff : (a b : Key) → (key_eqb a b ≡ true) ↔ (a ≡ b)
unfolding key_eqb
key_eqb_iff [] [] = ground arith
key_eqb_iff [] (y ∷ b) = ground arith
key_eqb_iff (x ∷ a) [] = ground arith
key_eqb_iff (x ∷ a) (y ∷ b) = ground (arith, key_eqb_iff a b)

pub key_eqb_refl : (a : Key) → key_eqb a a ≡ true
key_eqb_refl a = (key_eqb_iff a a).1 refl

pub key_lt_irrefl : (a : Key) → key_ltb a a ≡ false
unfolding key_ltb
key_lt_irrefl [] = refl
key_lt_irrefl (x ∷ a) = ground (arith, key_lt_irrefl a)

pub key_lt_trans : (a b c : Key) → key_ltb a b ≡ true → key_ltb b c ≡ true → key_ltb a c ≡ true
unfolding key_ltb
key_lt_trans a [] c p q = cc
key_lt_trans a (y ∷ b) [] p q = cc
key_lt_trans [] (y ∷ b) (z ∷ c) p q = refl
key_lt_trans (x ∷ a) (y ∷ b) (z ∷ c) p q = ground (arith, key_lt_trans a b c)

pub key_lt_asym : (a b : Key) → key_ltb a b ≡ true → key_ltb b a ≡ false
unfolding key_ltb
key_lt_asym a [] p = cc
key_lt_asym [] (y ∷ b) p = refl
key_lt_asym (x ∷ a) (y ∷ b) p = ground (arith, key_lt_asym a b)

pub key_lt_total : (a b : Key) → key_ltb a b ≡ false → key_ltb b a ≡ false → a ≡ b
unfolding key_ltb
key_lt_total [] [] p q = refl
key_lt_total [] (y ∷ b) p q = cc
key_lt_total (x ∷ a) [] p q = cc
key_lt_total (x ∷ a) (y ∷ b) p q = ground (arith, key_lt_total a b)

-- What lies above a key that is not below another lies above the other.
pub key_le_lt_trans : (a b c : Key) → key_ltb b a ≡ false → key_ltb b c ≡ true → key_ltb a c ≡ true
key_le_lt_trans a b c p q = elim (Bool-cases (key_ltb a b)) [
  | inl lt ↦ key_lt_trans a b c lt q
  | inr ge ↦ ground (arith, key_lt_total a b)
]

pub key_lt_le_trans : (a b c : Key) → key_ltb a b ≡ true → key_ltb c b ≡ false → key_ltb a c ≡ true
key_lt_le_trans a b c p q = elim (Bool-cases (key_ltb b c)) [
  | inl lt ↦ key_lt_trans a b c p lt
  | inr ge ↦ ground (arith, key_lt_total b c)
]

pub key_eqb_of_lt : (a b : Key) → key_ltb a b ≡ true → key_eqb a b ≡ false
key_eqb_of_lt a b p = ground (arith, key_eqb_iff a b, key_lt_irrefl a)
