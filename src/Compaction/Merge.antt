-- ===== src/Compaction/Merge.antt =====
-- internal/storage/compaction/compaction.go: which entry of a key a merge keeps.
use on_cloud_kv.Prelude.{
  ◌≡◌, refl, ap, ◌∙◌, false, Option, none, some, List, [], ◌∷◌, if◌then◌else◌, Bool-cases, inl, inr,
}
use mathlib.Core.Path.{subst}
use on_cloud_kv.Keys.{Key, key_eqb, key_eqb_iff, key_eqb_refl}
use on_cloud_kv.Entry.{Entry, int64_ltb}
use on_cloud_kv.Entries.{find, find-upsert, IsOrdered, upsert-IsOrdered}
use on_cloud_kv.Compaction.{see_over, see, see_all}

-- The one of two with the higher signed version, the one that was there at equal versions.
abbrev higher : Entry → Option Entry → Option Entry
higher e none = some e
higher e (some best) = if int64_ltb best.version e.version then some e else some best

-- The entry of a key with the highest version, the first of them at equal versions.
abbrev pub highest : Key → Option Entry → List Entry → Option Entry
highest k best [] = best
highest k best (e ∷ es) = highest k (if key_eqb e.key k then higher e best else best) es

see_over-higher :
    (e : Entry) (best : Option Entry) → (if see_over e best then some e else best) ≡ higher e best
unfolding see_over
see_over-higher e none = refl
see_over-higher e (some best) = refl

see-find_own :
    (seen : List Entry) (e : Entry)
    → find e.key (see seen e) ≡ (if see_over e (find e.key seen) then some e else find e.key seen)
unfolding see
see-find_own seen e = elim (Bool-cases (see_over e (find e.key seen))) [
  | inl over ↦ rw over (rw (find-upsert, key_eqb_refl))
  | inr under ↦ rw under
]

see-find_other :
    (k : Key) (seen : List Entry) (e : Entry)
    → key_eqb e.key k ≡ false
    → find k (see seen e) ≡ find k seen
unfolding see
see-find_other k seen e other = elim (Bool-cases (see_over e (find e.key seen))) [
  | inl over ↦ rw over (rw (find-upsert, other))
  | inr under ↦ rw under
]

see-find :
    (k : Key) (seen : List Entry) (e : Entry)
    → find k (see seen e) ≡ (if key_eqb e.key k then higher e (find k seen) else find k seen)
see-find k seen e = elim (Bool-cases (key_eqb e.key k)) [
  | inl same ↦ rw same (
      subst (λ j. find j (see seen e) ≡ higher e (find j seen)) ((key_eqb_iff e.key k).0 same)
        (see-find_own seen e ∙ see_over-higher e (find e.key seen)))
  | inr other ↦ rw other (see-find_other k seen e other)
]

see-IsOrdered : (seen : List Entry) (e : Entry) → IsOrdered seen → IsOrdered (see seen e)
unfolding see
see-IsOrdered seen e o = elim (Bool-cases (see_over e (find e.key seen))) [
  | inl over ↦ rw over (upsert-IsOrdered e seen o)
  | inr under ↦ rw under o
]

-- Of the entries that are merged into a map in the order of its keys, the map holds under each key
-- the one with the highest version, the first of them at equal versions, or what it held if none is
-- higher, and it stays in order.
pub see_all-highest :
    (k : Key) (seen es : List Entry)
    → IsOrdered seen
    → (find k (see_all seen es) ≡ highest k (find k seen) es) × IsOrdered (see_all seen es)
unfolding see_all
see_all-highest k seen [] o = (refl, o)
see_all-highest k seen (e ∷ es) o =
    let (found, ordered) = see_all-highest k (see seen e) es (see-IsOrdered seen e o) in
    (found ∙ ap (λ best. highest k best es) (see-find k seen e), ordered)
