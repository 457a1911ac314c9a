-- ===== src/Entries/Maps.antt =====
-- Lists of entries with distinct keys, in any order: what a Go map holds and how it may be walked.
use on_cloud_kv.Prelude.{
  ◌≡◌, refl, sym, ◌∙◌, false, Option, none, some, List, [], ◌∷◌, ◌++◌, arith, Bool-cases, inl, inr,
}
use mathlib.Core.Path.{subst}
use mathlib.Core.List.{Permᴰ}
use on_cloud_kv.Keys.{Key, key_eqb, key_eqb_iff}
use on_cloud_kv.Entry.{Entry}
use on_cloud_kv.Entries.{find}

unfoldable pub or_else : Option Entry → Option Entry → Option Entry
or_else none o = o
or_else (some e) o = some e

pub or_else-none : (o : Option Entry) → or_else o none ≡ o
unfolding or_else
or_else-none none = refl
or_else-none (some e) = refl

-- No two entries have the same key.
abbrev pub Distinct : List Entry → Type 0
Distinct [] = Unit
Distinct (x ∷ xs) = (find x.key xs ≡ none) × Distinct xs

pub find-append :
    (k : Key) (xs ys : List Entry) → find k (xs ++ ys) ≡ or_else (find k xs) (find k ys)
unfolding find or_else
find-append k [] ys = refl
find-append k (x ∷ xs) ys = elim (Bool-cases (key_eqb x.key k)) [
  | inl same ↦ rw same refl
  | inr other ↦ rw other (find-append k xs ys)
]

-- A key that the list does not hold is not that of its entries.
find-none_head :
    (k : Key) (x : Entry) (xs : List Entry)
    → find k (x ∷ xs) ≡ none
    → (key_eqb x.key k ≡ false) × (find k xs ≡ none)
unfolding find
find-none_head k x xs h = elim (Bool-cases (key_eqb x.key k)) [
  | inl same ↦ absurd (cc (rw same at h))
  | inr other ↦ (other, rw other at h)
]

pub Distinct-append :
    (xs : List Entry) (e : Entry) → Distinct xs → find e.key xs ≡ none → Distinct (xs ++ e ∷ [])
unfolding find or_else
Distinct-append [] e d h = (refl, tt)
Distinct-append (x ∷ xs) e d h =
    let (other, rest) = find-none_head e.key x xs h in
    (
      rw (find-append x.key xs (e ∷ []), d.0)
          (ground (arith, key_eqb_iff x.key e.key, key_eqb_iff e.key x.key)),
      Distinct-append xs e d.1 rest,
    )

Distinct-swap :
    (k : Key) (a b : Entry) (l : List Entry)
    → Distinct (a ∷ b ∷ l)
    → (find k (a ∷ b ∷ l) ≡ find k (b ∷ a ∷ l)) × Distinct (b ∷ a ∷ l)
unfolding find
Distinct-swap k a b l d =
    let (other, rest) = find-none_head a.key b l d.0 in
    (
      ground (arith, key_eqb_iff a.key k, key_eqb_iff b.key k, key_eqb_iff b.key a.key),
      (ground (arith, key_eqb_iff a.key b.key, key_eqb_iff b.key a.key, d.1.0), (rest, d.1.1)),
    )

-- However a map is walked, each key has its entry.
pub find-Permᴰ :
    (k : Key) {xs ys : List Entry}
    → Permᴰ xs ys
    → Distinct xs
    → (find k xs ≡ find k ys) × Distinct ys
unfolding find
find-Permᴰ k Permᴰ.nil d = (refl, tt)
find-Permᴰ k (Permᴰ.cons {a} {b} {l₁} {l₂} same p) d =
    let (e, d1) = find-Permᴰ k p d.1 in
    (rw (same, e) refl, (sym (find-Permᴰ b.key p d.1).0 ∙ (rw same at d.0), d1))
find-Permᴰ k (Permᴰ.swap {a} {b} {a'} {b'} {l} e f) d =
    subst (λ x. (find k (a ∷ b ∷ l) ≡ find k (x ∷ b' ∷ l)) × Distinct (x ∷ b' ∷ l)) f
      (subst (λ y. (find k (a ∷ b ∷ l) ≡ find k (b ∷ y ∷ l)) × Distinct (b ∷ y ∷ l)) e
        (Distinct-swap k a b l d))
find-Permᴰ k (Permᴰ.trans p q) d =
    let (e, d1) = find-Permᴰ k p d in let (f, d2) = find-Permᴰ k q d1 in (e ∙ f, d2)
