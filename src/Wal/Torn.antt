-- ===== src/Wal/Torn.antt =====
-- internal/storage/wal/wal.go: the replay of a log of which a crash left a first part.
use on_cloud_kv.Prelude.{
  All-append, ℕ, ◌≡◌, refl, ap, ◌⊎◌, inl, inr, none, some, List, [], ◌∷◌, ◌++◌, append_assoc, arith,
  length, ◌<◌, take, All,
}
use on_cloud_kv.Bytes.{Bytes}
use on_cloud_kv.Wal.{record_bytes, log_bytes, read_all}
use on_cloud_kv.Wal.Replay.{Fits, log_bytes-append, read_all-log_bytes, read_all_torn}

-- A list that ends in the middle of another, or goes on behind it.
append-split :
    (xs ys zs ws : Bytes)
    → xs ++ ys ≡ zs ++ ws
    → ((us : Bytes) × (xs ≡ zs ++ us) × (us ++ ys ≡ ws))
      ⊎ ((length xs < length zs) × (xs ≡ take (length xs) zs))
append-split xs ys [] ws h = inl (xs, refl, h)
append-split [] ys (z ∷ zs) ws h = inr (omega arith, refl)
append-split (x ∷ xs) ys (z ∷ zs) ws h =
    let head : x ≡ z = cc in
    let tail : xs ++ ys ≡ zs ++ ws = cc in
    elim (append-split xs ys zs ws tail) [
      | inl (us, e, f) ↦ inl (us, rw (head, e) refl, f)
      | inr (short, e) ↦ inr (omega (arith, short), rw head (ap (λ l. z ∷ l) e))
    ]

module _ (crc : Bytes → ℕ) where
  -- A first part of a log is some whole records and a torn one.
  torn_log :
      (more rest : Bytes) (later : List Bytes)
      → more ++ rest ≡ log_bytes crc later
      → All (Fits crc) later
      → (whole : List Bytes) × (after : List Bytes) × (later ≡ whole ++ after)
        × ((more ≡ log_bytes crc whole)
            ⊎ ((d : Bytes) × (k : ℕ) × Fits crc d
                × (k < length (record_bytes crc d))
                × (more ≡ log_bytes crc whole ++ take k (record_bytes crc d))))
  unfolding log_bytes
  torn_log [] rest [] h fits = ([], [], refl, inl refl)
  torn_log (x ∷ more) rest [] h fits = absurd cc
  torn_log more rest (d ∷ later) h fits =
      elim (append-split more rest (record_bytes crc d) (log_bytes crc later) h) [
        | inl (us, e, f) ↦
            let (whole, after, same, end) = torn_log us rest later f fits.1 in
            (
              d ∷ whole,
              after,
              ap (λ l. d ∷ l) same,
              elim end [
                | inl all ↦ inl (rw (e, all) refl)
                | inr (d', k, fit, short, torn) ↦
                    inr (d', k, fit, short, rw (e, torn, append_assoc) refl)
              ],
            )
        | inr (short, e) ↦ ([], d ∷ later, refl, inr (d, length more, fits.0, short, e))
      ]

  All-first : (ds es : List Bytes) → All (Fits crc) (ds ++ es) → All (Fits crc) ds
  All-first [] es h = tt
  All-first (d ∷ ds) es h = (h.0, All-first ds es h.1)

  -- A replay of whole records and a first part of others: the whole ones, and no error.
  pub read_all-torn_log :
      (done later : List Bytes) (more rest : Bytes)
      → more ++ rest ≡ log_bytes crc later
      → All (Fits crc) done
      → All (Fits crc) later
      → (extra : List Bytes) × (after : List Bytes) × (later ≡ extra ++ after)
        × (read_all crc (log_bytes crc done ++ more) ≡ some (done ++ extra, none))
  read_all-torn_log done later more rest h fits fits' =
      let (whole, after, same, end) = torn_log more rest later h fits' in
      let all_fit =
        All-append (Fits crc) done whole fits (All-first whole after (rw same at fits')) in
      (
        whole,
        after,
        same,
        elim end [
          | inl all ↦
              rw (all, ← log_bytes-append crc done whole)
                (read_all-log_bytes crc (done ++ whole) all_fit)
          | inr (d, k, fit, short, torn) ↦
              rw
                (
                  torn,
                  ← append_assoc (log_bytes crc done) (log_bytes crc whole)
                      (take k (record_bytes crc d)),
                  ← log_bytes-append crc done whole,
                )
                (read_all_torn crc (done ++ whole) d k all_fit fit short)
        ],
      )
