-- ===== src/Wal/Replay.antt =====
-- internal/storage/wal/wal.go: what `ReadAll` makes of a log that was written whole, torn or damaged.
use on_cloud_kv.Prelude.{
  ℕ, zero, suc, ◌-◌, dec_lt, ◌^◌, ◌<◌, ◌≡◌, ◌≢◌, refl, sym, inl, inr, Option-cases, Option, none,
  some, List, [], ◌∷◌, ◌++◌, ◌∙◌, ==_iff, append_assoc, append-nil, arith, length, drop, read_full,
  read_full-append, read_full_short, length-read_full, length-append, take, length-take,
  take-append, All,
}
use on_cloud_kv.Bytes.{Bytes, put_uint32, uint32}
use on_cloud_kv.Wal.{
  WalError, checksum_mismatch, header, record_bytes, read_loop, read_all, Round, end, corrupt,
  record_read, check_data, check_header, read_round, log_bytes,
}

-- A record whose length and checksum fit their 32-bit fields.
abbrev pub Fits : (crc : Bytes → ℕ) → Bytes → Type 0
Fits crc d = (length d < 2 ^ 32) × (crc d < 2 ^ 32)

module _ (crc : Bytes → ℕ) where
  length-header : (d : Bytes) → length (header crc d) ≡ 8
  unfolding header put_uint32
  length-header d = refl

  header_fields :
      (d : Bytes)
      → Fits crc d
      → (uint32 (header crc d) ≡ length d) × (uint32 (drop 4 (header crc d)) ≡ crc d)
  unfolding header put_uint32 uint32
  header_fields d h = omega arith

  -- One round over a whole record.
  read_round_record :
      (d rest : Bytes)
      → Fits crc d
      → read_round crc (record_bytes crc d ++ rest) ≡ record_read d rest
  unfolding read_round record_bytes check_header check_data
  read_round_record d rest h = rw (
    append_assoc,
    read_full-append (header crc d) (d ++ rest) 8 (sym (length-header d)),
    (header_fields d h).0,
    read_full-append d rest (length d) refl,
    (header_fields d h).1,
    (==_iff (crc d) (crc d)).1 refl,
  )

  -- A round that reads a record takes at least the header off the file.
  read_round_shorter :
      (f d rest : Bytes) → read_round crc f ≡ record_read d rest → length rest < length f
  unfolding read_round check_header check_data
  read_round_shorter f d rest e = elim (Option-cases (read_full 8 f)) [
    | inl short ↦ ground arith
    | inr ((hdr, f1), got) ↦ elim (Option-cases (read_full (uint32 hdr) f1)) [
      | inl short ↦ ground arith
      | inr ((d', f2), got') ↦
          ground
            (arith, length-read_full 8 f hdr f1 got, length-read_full (uint32 hdr) f1 d' f2 got')
    ]
  ]

  -- The fuel is never used up: each round shortens what is left of the file.
  read_loop_total :
      (n : ℕ) (records : List Bytes) (f : Bytes)
      → length f < n
      → (r : List Bytes × Option WalError) × (read_loop crc n records f ≡ some r)
  unfolding read_loop
  read_loop_total zero records f h = absurd (omega arith)
  read_loop_total (suc n) records f h =
      after (read_round crc f) refl
        (λ d rest shorter. read_loop_total n (records ++ d ∷ []) rest (omega arith))
    where
      after :
          (r : Round)
          → read_round crc f ≡ r
          → ((d rest : Bytes)
              → length rest < length f
              → (r : List Bytes × Option WalError) × (read_loop crc n (records ++ d ∷ []) rest
                  ≡ some r))
          → (r : List Bytes × Option WalError) × (read_loop crc (suc n) records f ≡ some r)
      after end e k = ((records, none), rw (e, read_loop))
      after corrupt e k = ((records, some checksum_mismatch), rw (e, read_loop))
      after (record_read d rest) e k =
          let (r, p) = k d rest (read_round_shorter f d rest e) in (r, rw (e, read_loop) p)

  read_loop_step :
      (n : ℕ) (records : List Bytes) (f d rest : Bytes)
      → read_round crc f ≡ record_read d rest
      → read_loop crc (suc n) records f ≡ read_loop crc n (records ++ d ∷ []) rest
  unfolding read_loop
  read_loop_step n records f d rest e = rw (e, read_loop)

  -- The rounds over whole records, up to a rest at which the loop stops with `e`.
  read_loop_records :
      (e : Option WalError) (rest : Bytes)
      → ((m : ℕ) (records : List Bytes) → read_loop crc (suc m) records rest ≡ some (records, e))
      → (n : ℕ) (records ds : List Bytes) → All (Fits crc) ds
      → length (log_bytes crc ds ++ rest) < n
      → read_loop crc n records (log_bytes crc ds ++ rest) ≡ some (records ++ ds, e)
  unfolding log_bytes
  read_loop_records e rest stops zero records ds h fuel = absurd (omega arith)
  read_loop_records e rest stops (suc n) records [] h fuel = rw append-nil (stops n records)
  read_loop_records e rest stops (suc n) records (d ∷ ds) h fuel =
      let more = log_bytes crc ds ++ rest in
      let round : read_round crc (log_bytes crc (d ∷ ds) ++ rest) ≡ record_read d more =
        rw append_assoc (read_round_record d more h.0) in
      let shorter = read_round_shorter (log_bytes crc (d ∷ ds) ++ rest) d more round in
      read_loop_step n records (log_bytes crc (d ∷ ds) ++ rest) d more round
      ∙ read_loop_records e rest stops n (records ++ d ∷ []) ds h.1 (omega arith)
      ∙ rw append_assoc refl

  -- The replay ends on any file, well-formed or not: the model's fuel, one round more than the file
  -- has bytes, is enough.
  pub read_all_total : (f : Bytes) → (r : List Bytes × Option WalError) × (read_all crc f ≡ some r)
  unfolding read_all
  read_all_total f = read_loop_total (suc (length f)) [] f (omega arith)

  -- A whole replay of records up to a rest at which the loop stops.
  read_all_records :
      (e : Option WalError) (rest : Bytes)
      → ((m : ℕ) (records : List Bytes) → read_loop crc (suc m) records rest ≡ some (records, e))
      → (ds : List Bytes) → All (Fits crc) ds
      → read_all crc (log_bytes crc ds ++ rest) ≡ some (ds, e)
  unfolding read_all
  read_all_records e rest stops ds h =
      read_loop_records e rest stops (suc (length (log_bytes crc ds ++ rest))) [] ds h (omega arith)

  read_loop_end :
      (f : Bytes)
      → read_round crc f ≡ end
      → (m : ℕ) (records : List Bytes) → read_loop crc (suc m) records f ≡ some (records, none)
  unfolding read_loop
  read_loop_end f e m records = rw (e, read_loop)

  read_loop_corrupt :
      (f : Bytes)
      → read_round crc f ≡ corrupt
      → (m : ℕ) (records : List Bytes)
      → read_loop crc (suc m) records f ≡ some (records, some checksum_mismatch)
  unfolding read_loop
  read_loop_corrupt f e m records = rw (e, read_loop)

  read_round_empty : read_round crc [] ≡ end
  unfolding read_round check_header read_full
  read_round_empty = refl

  read_round_torn :
      (d : Bytes) (k : ℕ)
      → Fits crc d
      → k < length (record_bytes crc d)
      → read_round crc (take k (record_bytes crc d)) ≡ end
  unfolding read_round record_bytes check_header check_data
  read_round_torn d k h short = elim (dec_lt k 8) [
    | yes p ↦ rw (
        read_full_short 8 (take k (header crc d ++ d))
          (omega (arith, length-take k (header crc d ++ d))))
    | no p ↦ rw (
      take-append k (header crc d) d (omega (arith, length-header d)),
      read_full-append (header crc d) (take (k - length (header crc d)) d) 8
          (sym (length-header d)),
      (header_fields d h).0,
      read_full_short (length d) (take (k - length (header crc d)) d) (
          omega (
            arith,
            length-header d,
            length-append (header crc d) d,
            length-take (k - length (header crc d)) d,
          )),
    )
  ]

  read_round_damaged :
      (d d' rest : Bytes)
      → Fits crc d
      → length d' ≡ length d
      → crc d' ≢ crc d
      → read_round crc ((header crc d ++ d') ++ rest) ≡ corrupt
  unfolding read_round check_header check_data
  read_round_damaged d d' rest h same differs =
      rw
        (
          append_assoc,
          read_full-append (header crc d) (d' ++ rest) 8 (sym (length-header d)),
          (header_fields d h).0,
          read_full-append d' rest (length d) (sym same),
          (header_fields d h).1,
        )
        (ground arith)

  -- A log that was written whole replays to its records, in order, with no error, if each record's
  -- length and checksum fit 32 bits.
  pub read_all-log_bytes :
      (ds : List Bytes) → All (Fits crc) ds → read_all crc (log_bytes crc ds) ≡ some (ds, none)
  read_all-log_bytes ds h =
      rw (← append-nil (log_bytes crc ds))
        (read_all_records none [] (read_loop_end [] read_round_empty) ds h)

  pub log_bytes-append :
      (ds es : List Bytes) → log_bytes crc (ds ++ es) ≡ log_bytes crc ds ++ log_bytes crc es
  unfolding log_bytes
  log_bytes-append [] es = refl
  log_bytes-append (d ∷ ds) es = rw (log_bytes-append ds es, append_assoc)

  -- A crash in the middle of a record, at any of its bytes, loses that record alone: the replay
  -- returns the whole records before it, with no error, if the length and the checksum of each
  -- record fit 32 bits.
  pub read_all_torn :
      (ds : List Bytes) (d : Bytes) (k : ℕ)
      → All (Fits crc) ds
      → Fits crc d
      → k < length (record_bytes crc d)
      → read_all crc (log_bytes crc ds ++ take k (record_bytes crc d)) ≡ some (ds, none)
  read_all_torn ds d k hs h short =
      read_all_records none _ (read_loop_end _ (read_round_torn d k h short)) ds hs

  -- Data that was damaged in place, with its length kept and another checksum, is reported: the
  -- replay returns the records before it with `ErrChecksumMismatch`, and reads nothing after it, if
  -- the length and the checksum of each record that was written fit 32 bits.
  pub read_all_damaged :
      (ds : List Bytes) (d d' rest : Bytes)
      → All (Fits crc) ds
      → Fits crc d
      → length d' ≡ length d
      → crc d' ≢ crc d
      → read_all crc (log_bytes crc ds ++ ((header crc d ++ d') ++ rest))
        ≡ some (ds, some checksum_mismatch)
  read_all_damaged ds d d' rest hs h same differs =
      read_all_records (some checksum_mismatch) _
        (read_loop_corrupt _ (read_round_damaged d d' rest h same differs)) ds hs
