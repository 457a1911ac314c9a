-- ===== src/Entries.antt =====
-- The abstract view of a memtable or a table: its entries in the order of their keys.
pub mod Maps
use on_cloud_kv.Prelude.{
  ◌≡◌, refl, true, Option, none, some, List, [], ◌∷◌, arith, All, if◌then◌else◌, Bool-cases, inl,
  inr,
}
use on_cloud_kv.Keys.{
  Key, key_ltb, key_eqb, key_eqb_iff, key_lt_trans, key_lt_total, key_lt_irrefl, key_eqb_refl,
}
use on_cloud_kv.Entry.{Entry}

-- The entry of a key.
unfoldable pub find : Key → List Entry → Option Entry
find k [] = none
find k (x ∷ xs) = if key_eqb x.key k then some x else find k xs

-- An entry in its place, instead of any entry of its key.
unfoldable pub upsert : Entry → List Entry → List Entry
upsert e [] = e ∷ []
upsert e (x ∷ xs) =
    let rest = upsert e xs in
    if key_ltb x.key e.key then x ∷ rest else if key_eqb x.key e.key then e ∷ xs else e ∷ x ∷ xs

-- The entries from a key on.
unfoldable pub from : Key → List Entry → List Entry
from k [] = []
from k (x ∷ xs) = let rest = from k xs in if key_ltb x.key k then rest else x ∷ xs

-- The keys rise strictly.
abbrev pub IsOrdered : List Entry → Type 0
IsOrdered [] = Unit
IsOrdered (x ∷ xs) = All (λ (y : Entry). key_ltb x.key y.key ≡ true) xs × IsOrdered xs

pub find-upsert :
    (e : Entry) (j : Key) (es : List Entry)
    → find j (upsert e es) ≡ (if key_eqb e.key j then some e else find j es)
unfolding find upsert
find-upsert e j [] = refl
find-upsert e j (x ∷ xs) = ground (
  arith,
  find-upsert e j xs,
  key_eqb_iff x.key j,
  key_eqb_iff e.key j,
  key_eqb_iff x.key e.key,
  key_lt_irrefl e.key,
)

All-upsert :
    (k : Key) (e : Entry) (es : List Entry)
    → key_ltb k e.key ≡ true
    → All (λ (y : Entry). key_ltb k y.key ≡ true) es
    → All (λ (y : Entry). key_ltb k y.key ≡ true) (upsert e es)
unfolding upsert
All-upsert k e [] p a = (p, tt)
All-upsert k e (x ∷ xs) p a = elim (Bool-cases (key_ltb x.key e.key)) [
  | inl lt ↦ rw lt (a.0, All-upsert k e xs p a.1)
  | inr ge ↦ rw ge (elim (Bool-cases (key_eqb x.key e.key)) [
    | inl same ↦ rw same (p, a.1)
    | inr other ↦ rw other (p, a)
  ])
]

All-trans :
    (a b : Key) (es : List Entry)
    → key_ltb a b ≡ true
    → All (λ (y : Entry). key_ltb b y.key ≡ true) es
    → All (λ (y : Entry). key_ltb a y.key ≡ true) es
All-trans a b [] p h = tt
All-trans a b (x ∷ xs) p h = (key_lt_trans a b x.key p h.0, All-trans a b xs p h.1)

pub upsert-IsOrdered : (e : Entry) (es : List Entry) → IsOrdered es → IsOrdered (upsert e es)
unfolding upsert
upsert-IsOrdered e [] o = (tt, tt)
upsert-IsOrdered e (x ∷ xs) o = elim (Bool-cases (key_ltb x.key e.key)) [
  | inl lt ↦ rw lt (All-upsert x.key e xs lt o.0, upsert-IsOrdered e xs o.1)
  | inr ge ↦ rw ge (elim (Bool-cases (key_eqb x.key e.key)) [
    | inl same ↦ rw same (rw ((key_eqb_iff x.key e.key).0 same) at o.0, o.1)
    | inr other ↦
        let lt : key_ltb e.key x.key ≡ true =
          ground (arith, key_lt_total x.key e.key, key_eqb_iff x.key e.key) in
        rw other ((lt, All-trans e.key x.key xs lt o.0), o)
  ])
]

-- The later of two updates of a key stands.
pub upsert-upsert :
    (a b : Entry) (es : List Entry) → a.key ≡ b.key → upsert a (upsert b es) ≡ upsert a es
unfolding upsert
upsert-upsert a b [] same = rw (same, key_lt_irrefl b.key, key_eqb_refl b.key)
upsert-upsert a b (x ∷ xs) same =
    ground (arith, upsert-upsert a b xs same, key_lt_irrefl b.key, key_eqb_refl b.key)
