-- ===== src/Engine/Seen.antt =====
-- internal/storage/engine.go: the map `seen` of a scan, and the entries in it that are not deleted.
use on_cloud_kv.Prelude.{
  ◌≡◌, refl, sym, ap, ◌∙◌, false, Option, none, some, List, [], ◌∷◌, ◌++◌, All, Bool-cases, inl,
  inr,
}
use on_cloud_kv.Keys.{Key, key_eqb, key_eqb_iff}
use on_cloud_kv.Entry.{Entry}
use on_cloud_kv.Entries.{find}
use on_cloud_kv.Entries.Maps.{or_else, or_else-none, Distinct, find-append, Distinct-append}
use on_cloud_kv.Engine.{add_entry, add_entries, alive}
use on_cloud_kv.Engine.View.{seen}

-- The map of the entries that are seen: the first entry of a key stays.
some_stays :
    (k : Key) (es : List Entry) (e x : Entry)
    → find e.key es ≡ some x
    → find k es ≡ or_else (find k es) (find k (e ∷ []))
unfolding find or_else
some_stays k es e x there = elim (Bool-cases (key_eqb e.key k)) [
  | inl same ↦ rw (same, (rw ((key_eqb_iff e.key k).0 same) at there)) refl
  | inr other ↦ rw other (sym (or_else-none (find k es)))
]

add_entry-find :
    (k : Key) (es : List Entry) (e : Entry)
    → find k (add_entry es e) ≡ or_else (find k es) (find k (e ∷ []))
unfolding add_entry
add_entry-find k es e =
    elim (find e.key es)
        as (λ o.
          find e.key es ≡ o
          → find k (elim o [ none ↦ es ++ e ∷ [] | some _ ↦ es ])
            ≡ or_else (find k es) (find k (e ∷ []))) [
              | none ↦ λ fresh. find-append k es (e ∷ [])
              | some x ↦ λ there. some_stays k es e x there
            ]
      refl

add_entry-Distinct : (es : List Entry) (e : Entry) → Distinct es → Distinct (add_entry es e)
unfolding add_entry
add_entry-Distinct es e d =
    elim (find e.key es)
        as (λ o. find e.key es ≡ o → Distinct (elim o [ none ↦ es ++ e ∷ [] | some _ ↦ es ])) [
          | none ↦ λ fresh. Distinct-append es e d fresh
          | some x ↦ λ there. d
        ]
      refl

pub or_else_assoc : (a b c : Option Entry) → or_else (or_else a b) c ≡ or_else a (or_else b c)
unfolding or_else
or_else_assoc none b c = refl
or_else_assoc (some e) b c = refl

pub add_entries-find :
    (k : Key) (seen_ es : List Entry)
    → Distinct seen_
    → (find k (add_entries seen_ es) ≡ or_else (find k seen_) (find k es))
      × Distinct (add_entries seen_ es)
unfolding add_entries find
add_entries-find k seen_ [] d = (sym (or_else-none (find k seen_)), d)
add_entries-find k seen_ (e ∷ es) d =
    let (found, distinct) =
      add_entries-find k (add_entry seen_ e) es (add_entry-Distinct seen_ e d) in
    (
      found
          ∙ rw (add_entry-find k seen_ e, or_else_assoc)
              (ap (or_else (find k seen_)) (sym (find-append k (e ∷ []) es))),
      distinct,
    )

-- Of the entries of a map, those that are not deleted.
abbrev pub AllLive : List Entry → Type 0
AllLive es = All (λ (e : Entry). e.deleted ≡ false) es

pub alive-find : (k : Key) (es : List Entry) → Distinct es → find k (alive es) ≡ seen (find k es)
unfolding alive find seen
alive-find k [] d = refl
alive-find k (e ∷ es) d = elim (Bool-cases e.deleted) [
  | inl dead ↦ elim (Bool-cases (key_eqb e.key k)) [
    | inl same ↦
        let gone : find k es ≡ none = rw ((key_eqb_iff e.key k).0 same) at d.0 in
        rw (dead, same) (alive-find k es d.1 ∙ rw gone refl)
    | inr other ↦ rw (dead, other) (alive-find k es d.1)
  ]
  | inr lives ↦ elim (Bool-cases (key_eqb e.key k)) [
    | inl same ↦ rw (lives, same) refl
    | inr other ↦ rw (lives, other) (alive-find k es d.1)
  ]
]

pub alive-Distinct : (es : List Entry) → Distinct es → Distinct (alive es) × AllLive (alive es)
unfolding alive find seen
alive-Distinct [] d = (tt, tt)
alive-Distinct (e ∷ es) d =
    let (distinct, all_live) = alive-Distinct es d.1 in
    elim (Bool-cases e.deleted) [
      | inl dead ↦ rw dead (distinct, all_live)
      | inr lives ↦ rw lives ((alive-find e.key es d.1 ∙ rw d.0 refl, distinct), (refl, all_live))
    ]
