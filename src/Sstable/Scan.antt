-- ===== src/Sstable/Scan.antt =====
-- internal/storage/sstable/sstable.go: `Scan` on a table that a writer closed.
use on_cloud_kv.Prelude.{
  ℕ, suc, ◌+◌, ◌-◌, ◌^◌, ◌≤◌, ◌<◌, ◌≡◌, refl, sym, ap, ◌∙◌, some, List, [], ◌∷◌, ◌++◌, append_assoc,
  append-nil, arith, length, length-append, drop, drop-append, ◌==◌, All, inl, inr, take,
  length-take,
}
use native.Mathlib.Nat.{zero-add}
use mathlib.Core.Path.{subst}
use on_cloud_kv.Bytes.{Bytes, put_uint32, uint64, length-put_uint32}
use on_cloud_kv.Keys.{Key}
use on_cloud_kv.Entry.{Entry}
use on_cloud_kv.Entries.{from}
use on_cloud_kv.Bloom.{Sizing}
use on_cloud_kv.Sstable.{entry_bytes, index_block, index_len, footer, build}
use on_cloud_kv.Sstable.Reader.{ok, read_entry, uint8, read_loop, scan_at, scan}
use on_cloud_kv.Sstable.Codec.{IsStorable}
use on_cloud_kv.Sstable.Open.{data_block, index_of, Fits, build_lem, reader_of}
use on_cloud_kv.Sstable.Total.{read_entry-length, read_loop_step, read_loop_full, read_loop_total}
use on_cloud_kv.Sstable.Rounds.{
  Room, read_loop_entries, index_from-Skips, data_block-append, length-data_block, All-prefix,
  take-drop, All-suffix, scan_at_lem, read_full-some, index_as_entry, index_head, length-footer,
}

module _ (z : Sizing) (es : List Entry) (fits : Fits es) where
  -- What stands behind the data block.
  behind : Bytes
  behind =
      index_block (index_of 0 es)
      ++ footer (length (data_block es)) (index_len (index_of 0 es)) (length es)

  -- The loop starts at the first entry that is not before the start key.
  scan_starts :
      (start : Key) (limit : ℕ) (x : Entry) (xs : List Entry)
      → from start es ≡ x ∷ xs
      → scan (reader_of z es) start limit
        ≡ read_loop (suc (length (build es))) limit [] (data_block (x ∷ xs) ++ behind)
  unfolding scan scan_at behind
  scan_starts start limit x xs q =
      let s = index_from-Skips start 0 es in
      let blocks : data_block es ≡ data_block s.before ++ data_block (x ∷ xs) =
        ap data_block (s.split ∙ ap (λ ys. s.before ++ ys) q)
        ∙ data_block-append s.before (x ∷ xs) in
      let whole : build es ≡ data_block s.before ++ (data_block (x ∷ xs) ++ behind) =
        build_lem es
        ∙ ap (λ b. b ++ behind) blocks
        ∙ append_assoc (data_block s.before) (data_block (x ∷ xs)) behind in
      let small : 0 + length (data_block s.before) < 2 ^ 63 = omega (
        arith,
        fits.data_fits,
        length-append (data_block s.before) (data_block (x ∷ xs)),
        ap (λ b. length b) blocks,
      ) in
      let there : drop (0 + length (data_block s.before)) (build es)
          ≡ data_block (x ∷ xs) ++ behind =
        rw (zero-add, whole) (drop-append (data_block s.before) (data_block (x ∷ xs) ++ behind)) in
      ap (λ index. scan_at (build es) limit index)
        (s.goes_on ∙ ap (index_of (0 + length (data_block s.before))) q)
      ∙ scan_at_lem (build es) limit (0 + length (data_block s.before)) x xs small
      ∙ ap (read_loop (suc (length (build es))) limit []) there

  scan_nothing :
      (start : Key) (limit : ℕ) → from start es ≡ [] → scan (reader_of z es) start limit ≡ ok []
  unfolding scan scan_at index_of
  scan_nothing start limit q = let s = index_from-Skips start 0 es in rw (s.goes_on, q)

  -- The entries from a start key on are fewer than the bytes of the file.
  fuel_left :
      (start : Key) (xs ys : List Entry)
      → from start es ≡ xs ++ ys
      → (rounds : ℕ) × (suc (length (build es)) ≡ length xs + suc rounds)
        × (length (data_block ys ++ behind) < suc rounds)
  unfolding behind
  fuel_left start xs ys q =
      let s = index_from-Skips start 0 es in
      let whole : length (build es)
          ≡ length (data_block s.before)
            + (length (data_block xs) + (length (data_block ys) + length behind)) =
        omega (
          arith,
          ap (λ b. length b) (build_lem es),
          length-append (data_block es) behind,
          ap (λ b. length b)
              (ap data_block (s.split ∙ ap (λ l. s.before ++ l) q)
                ∙ data_block-append s.before (xs ++ ys)),
          length-append (data_block s.before) (data_block (xs ++ ys)),
          ap (λ b. length b) (data_block-append xs ys),
          length-append (data_block xs) (data_block ys),
        ) in
      (
        length (build es) - length xs,
        omega (arith, length-data_block xs),
        omega (arith, length-data_block xs, length-append (data_block ys) behind),
      )

  -- The entries that a scan reads before the limit stops it.
  scan_reads :
      (start : Key) (limit : ℕ) (x : Entry) (tail xs ys : List Entry)
      → from start es ≡ x ∷ tail
      → from start es ≡ xs ++ ys
      → Room limit (length xs)
      → (rounds : ℕ) × (length (data_block ys ++ behind) < suc rounds)
        × (scan (reader_of z es) start limit
            ≡ read_loop (suc rounds) limit xs (data_block ys ++ behind))
  scan_reads start limit x tail xs ys q split room =
      let s = index_from-Skips start 0 es in
      let (rounds, fuel, enough) = fuel_left start xs ys split in
      let storable : All IsStorable (xs ++ ys) = subst (All IsStorable) split (
        All-suffix IsStorable s.before (from start es)
          (subst (All IsStorable) s.split fits.storable)) in
      let blocks : data_block (x ∷ tail) ++ behind ≡ data_block xs ++ (data_block ys ++ behind) =
        ap (λ l. data_block l ++ behind) (sym q ∙ split)
        ∙ ap (λ b. b ++ behind) (data_block-append xs ys)
        ∙ append_assoc (data_block xs) (data_block ys) behind in
      (
        rounds,
        enough,
        scan_starts start limit x tail q
            ∙ ap (λ n. read_loop n limit [] (data_block (x ∷ tail) ++ behind)) fuel
            ∙ ap (read_loop (length xs + suc rounds) limit []) blocks
            ∙ read_loop_entries (suc rounds) limit [] xs (data_block ys ++ behind)
                (All-prefix IsStorable xs ys storable) (rw zero-add room),
      )

  -- On a table whose sizes fit their fields `Scan` with a limit, that is not more than the entries from the
  -- start key on, returns the first of these, as many as the limit says.
  pub scan-limit :
      (start : Key) (limit : ℕ)
      → 0 < limit
      → limit ≤ length (from start es)
      → scan (reader_of z es) start limit ≡ ok (take limit (from start es))
  scan-limit start limit pos le =
      elim (from start es)
          as (λ l.
            from start es ≡ l
            → scan (reader_of z es) start limit ≡ ok (take limit (from start es))) [
              | [] ↦ λ q. absurd (omega (arith, le, ap (λ (l : List Entry). length l) q))
              | x ∷ tail ↦ λ q.
                  let L = from start es in
                  let size = length-take limit L le in
                  let (rounds, _, run) =
                    scan_reads start limit x tail (take limit L) (drop limit L) q
                      (take-drop limit L) (inr (omega (arith, size))) in
                  run
                  ∙ read_loop_full rounds limit (take limit L) (data_block (drop limit L) ++ behind)
                      (ground (arith, size))
            ]
        refl

  -- What follows the first entry of the index, less the last four bytes of its offset.
  index_rest : Entry → List Entry → Bytes
  index_rest x tail =
      index_block (index_of (length (entry_bytes x)) tail)
      ++ footer (length (data_block es)) (index_len (index_of 0 es)) (length es)

  behind_lem :
      (x : Entry) (tail : List Entry)
      → es ≡ x ∷ tail
      → behind
        ≡ put_uint32 (length x.key)
          ++ (x.key ++ (put_uint32 0 ++ (put_uint32 0 ++ index_rest x tail)))
  unfolding behind index_rest
  behind_lem x tail q =
      ap
        (λ l.
          index_block (index_of 0 l)
          ++ footer (length (data_block es)) (index_len (index_of 0 es)) (length es))
        q
      ∙ index_head x tail (footer (length (data_block es)) (index_len (index_of 0 es)) (length es))

  index_rest-length :
      (x : Entry) (tail : List Entry) → 9 ≤ length (put_uint32 0 ++ index_rest x tail)
  unfolding index_rest
  index_rest-length x tail =
      let ftr = footer (length (data_block es)) (index_len (index_of 0 es)) (length es) in
      omega (
        arith,
        length-append (put_uint32 0) (index_rest x tail),
        length-put_uint32 0,
        length-append (index_block (index_of (length (entry_bytes x)) tail)) ftr,
        length-footer (length (data_block es)) (index_len (index_of 0 es)) (length es),
      )

  -- On a table that is not empty and whose sizes fit their fields `Scan` of everything reads on behind the
  -- entries, into the index: what it returns are the entries, then one more than were written, with the
  -- first key and an empty value, and perhaps others.
  pub scan-overrun :
      (x : Entry) (tail : List Entry) (start : Key)
      → es ≡ x ∷ tail
      → from start es ≡ es
      → (extra : Entry) × (more : List Entry) × (scan (reader_of z es) start 0
          ≡ ok (es ++ extra ∷ more))
        × (extra.key ≡ x.key)
        × (extra.value ≡ [])
  unfolding data_block
  scan-overrun x tail start q all =
      let (rounds, enough, run) =
        scan_reads start 0 x tail es [] (all ∙ q) (all ∙ sym (append-nil es)) (inl refl) in
      let ((word, after), read) =
        read_full-some 9 (put_uint32 0 ++ index_rest x tail) (index_rest-length x tail) in
      let extra : Entry = record {
        key = x.key;
        value = [];
        version = uint64 word;
        deleted = uint8 (drop 8 word) == 1;
      } in
      let first : read_entry behind ≡ some (extra, after) = rw (behind_lem x tail q) (
        index_as_entry x.key (index_rest x tail) word after
          (subst (All IsStorable) q fits.storable).0.0 read) in
      let (more, done) =
        read_loop_total rounds 0 (es ++ extra ∷ []) after
          (omega (arith, read_entry-length behind extra after first, enough)) in
      (
        extra,
        more,
        run
            ∙ read_loop_step rounds 0 es behind extra after refl first
            ∙ done
            ∙ ap (λ r. ok r) (append_assoc es (extra ∷ []) more),
        refl,
        refl,
      )
