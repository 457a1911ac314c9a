-- ===== src/Skiplist/Splice.antt =====
-- internal/storage/skiplist/skiplist.go: the pointers after the last loop of `Put`.
use on_cloud_kv.Prelude.{
  ℕ, zero, suc, ◌+◌, ◌<◌, ◌≡◌, ◌≢◌, refl, ap, ◌∙◌, ◌&&◌, Option, none, some, arith, leb, ltb, ◌==◌,
  ==_iff, if◌then◌else◌, Bool-cases, inl, inr,
}
use on_cloud_kv.Skiplist.{Heap, Update, set_forward, splice_at, splice}
use on_cloud_kv.Skiplist.Links.{relink}

set_forward_forward :
    (h : Heap) (p i : ℕ) (v : Option ℕ) (x j : ℕ)
    → (set_forward h p i v x).forward j
      ≡ (if x == p then if j == i then v else (h x).forward j else (h x).forward j)
unfolding set_forward
set_forward_forward h p i v x j = elim (Bool-cases (x == p)) [
  | inl e ↦ rw e (rw ((==_iff x p).0 e))
  | inr ne ↦ rw ne
]

set_forward_rest :
    (h : Heap) (p i : ℕ) (v : Option ℕ) (x : ℕ)
    → ((set_forward h p i v x).height ≡ (h x).height)
      × ((set_forward h p i v x).entry ≡ (h x).entry)
unfolding set_forward
set_forward_rest h p i v x = elim (Bool-cases (x == p)) [
  | inl e ↦ rw e (rw ((==_iff x p).0 e) (refl, refl))
  | inr ne ↦ rw ne (refl, refl)
]

-- One round relinks its own level, and changes no other pointer.
splice_at_forward :
    (h : Heap) (n i p x j : ℕ)
    → p ≢ n
    → (splice_at h n i (some p) x).forward j
      ≡ (if j == i then relink (λ z. (h z).forward i) n p x else (h x).forward j)
unfolding splice_at
splice_at_forward h n i p x j ne = ground (
  arith,
  set_forward_forward (set_forward h n i ((h p).forward i)) p i (some n) x j,
  set_forward_forward h n i ((h p).forward i) x j,
)

splice_at_rest :
    (h : Heap) (n i : ℕ) (o : Option ℕ) (x : ℕ)
    → ((splice_at h n i o x).height ≡ (h x).height) × ((splice_at h n i o x).entry ≡ (h x).entry)
unfolding splice_at
splice_at_rest h n i none x = (refl, refl)
splice_at_rest h n i (some p) x =
    let (a, b) = set_forward_rest (set_forward h n i ((h p).forward i)) p i (some n) x in
    let (c, d) = set_forward_rest h n i ((h p).forward i) x in (a ∙ c, b ∙ d)

pub splice_rest :
    (rounds i : ℕ) (h : Heap) (n : ℕ) (update : Update) (x : ℕ)
    → ((splice rounds i h n update x).height ≡ (h x).height)
      × ((splice rounds i h n update x).entry ≡ (h x).entry)
unfolding splice
splice_rest zero i h n update x = (refl, refl)
splice_rest (suc rounds) i h n update x =
    let (a, b) = splice_rest rounds (suc i) (splice_at h n i (update i)) n update x in
    let (c, d) = splice_at_rest h n i (update i) x in (a ∙ c, b ∙ d)

-- All rounds together relink the levels that they visit.
pub splice_forward :
    (rounds i : ℕ) (h : Heap) (n : ℕ) (update : Update) (u : ℕ → ℕ) (x j : ℕ)
    → ((m : ℕ) → m < i + rounds → update m ≡ some (u m))
    → ((m : ℕ) → u m ≢ n)
    → (splice rounds i h n update x).forward j ≡ (
        if leb i j && ltb j (i + rounds)
        then relink (λ z. (h z).forward j) n (u j) x
        else (h x).forward j)
unfolding splice
splice_forward zero i h n update u x j present apart = ground arith
splice_forward (suc rounds) i h n update u x j present apart =
    let h1 = splice_at h n i (some (u i)) in
    ap (λ (o : Option ℕ). (splice rounds (suc i) (splice_at h n i o) n update x).forward j)
      (present i (omega arith))
    ∙ ground (
      arith,
      splice_forward rounds (suc i) h1 n update u x j (λ m lt. present m (omega arith)) apart,
      splice_at_forward h n i (u i) x j (apart i),
      splice_at_forward h n i (u i) (u j) j (apart i),
    )
