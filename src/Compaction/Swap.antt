-- ===== src/Compaction/Swap.antt =====
-- internal/storage/compaction/compaction.go: the list of tables and the directory after a compaction.
use on_cloud_kv.Prelude.{
  ℕ, ◌≡◌, ◌==◌, ==_iff, refl, false, some, List, [], ◌∷◌, Bool-cases, inl, inr, All, ltb, length,
}
use mathlib.Core.Path.{subst}
use on_cloud_kv.Bytes.{Bytes}
use on_cloud_kv.Bloom.{Sizing}
use on_cloud_kv.Sstable.Reader.{Outcome, ok, err, panic, out_of_fuel}
use on_cloud_kv.Compaction.{
  Compactor, Disk, is_one_of, kept, remove_files, install, compacted, compact_merged, compact_tier,
  compact, merge, select_tier, min_compact_tables,
}

-- There is a file at a path.
abbrev pub HasFile : Disk → ℕ → Type 0
HasFile disk p = (file : Bytes) × (disk p ≡ some file)

kept-All :
    (P : ℕ → Type 0) (tier ts : List ℕ)
    → All P ts
    → All (λ p. P p × (is_one_of p tier ≡ false)) (kept tier ts)
unfolding kept
kept-All P tier [] a = tt
kept-All P tier (t ∷ ts) a = elim (Bool-cases (is_one_of t tier)) [
  | inl out ↦ rw out (kept-All P tier ts a.1)
  | inr stays ↦ rw stays ((a.0, stays), kept-All P tier ts a.1)
]

All-weaken : (P Q : ℕ → Type 0) (xs : List ℕ) → ((x : ℕ) → P x → Q x) → All P xs → All Q xs
All-weaken P Q [] f a = tt
All-weaken P Q (x ∷ xs) f a = (f x a.0, All-weaken P Q xs f a.1)

module _ (c : Compactor) (out_path : ℕ) (tier : List ℕ) (file : Bytes) where
  -- What is at a path that is not in the tier.
  stays :
      (p : ℕ)
      → is_one_of p tier ≡ false
      → HasFile c.disk p
      → HasFile (install c out_path tier file).disk p
  unfolding install remove_files
  stays p out (bytes, there) = elim (Bool-cases (p == out_path)) [
    | inl new ↦ (file, rw (out, new) refl)
    | inr old ↦ (bytes, rw (out, old) there)
  ]

  install-files :
      is_one_of out_path tier ≡ false
      → All (HasFile c.disk) c.tables
      → All (HasFile (install c out_path tier file).disk) (install c out_path tier file).tables
  unfolding install remove_files
  install-files fresh files = (
    (file, rw (fresh, (==_iff out_path out_path).1 refl)),
    All-weaken (λ p. HasFile c.disk p × (is_one_of p tier ≡ false))
        (HasFile (install c out_path tier file).disk) (kept tier c.tables) (λ p h. stays p h.1 h.0)
        (kept-All (HasFile c.disk) tier c.tables files),
  )

merged-files :
    (c c' : Compactor) (out_path : ℕ) (tier : List ℕ) (o : Outcome Bytes)
    → is_one_of out_path tier ≡ false
    → All (HasFile c.disk) c.tables
    → compact_merged c out_path tier o ≡ compacted c'
    → All (HasFile c'.disk) c'.tables
unfolding compact_merged
merged-files c c' out_path tier (ok file) fresh files h =
    let q : install c out_path tier file ≡ c' = cc in
    subst (λ x. All (HasFile x.disk) x.tables) q (install-files c out_path tier file fresh files)
merged-files c c' out_path tier err fresh files h = absurd cc
merged-files c c' out_path tier panic fresh files h = absurd cc
merged-files c c' out_path tier out_of_fuel fresh files h = absurd cc

-- After a compaction that succeeds every table of the list has a file, if every table had one
-- before and the path of the merged table is not one of those that are merged.
pub compact-files :
    (z : Sizing) (c c' : Compactor) (out_path : ℕ)
    → is_one_of out_path (select_tier c.disk c.tables) ≡ false
    → All (HasFile c.disk) c.tables
    → compact z c out_path ≡ compacted c'
    → All (HasFile c'.disk) c'.tables
unfolding compact compact_tier
compact-files z c c' out_path fresh files h =
    let tier = select_tier c.disk c.tables in
    elim (Bool-cases (ltb (length c.tables) min_compact_tables)) [
      | inl few ↦ absurd (cc (rw few at h))
      | inr enough ↦ elim (Bool-cases (ltb (length tier) min_compact_tables)) [
        | inl small ↦ absurd (cc (rw (enough, small) at h))
        | inr large ↦
            merged-files c c' out_path tier (merge z c.disk tier) fresh files
              (rw (enough, large) at h)
      ]
    ]
