-- ===== src/Wal/Rounds.antt =====
-- internal/storage/wal/wal.go: the invariant of the log from one round of the commit loop to the next.
use on_cloud_kv.Prelude.{
  ℕ, ◌≡◌, refl, sym, ap, ◌∙◌, ◌⊎◌, inl, inr, none, List, [], ◌∷◌, ◌++◌, append_assoc, append-nil,
}
use on_cloud_kv.Bytes.{Bytes}
use on_cloud_kv.Wal.{log_bytes}
use on_cloud_kv.Wal.Replay.{log_bytes-append}
use on_cloud_kv.Wal.Commit.{LogFile, commit_batch, commit_batch_lem}
use on_cloud_kv.Wal.Crashes.{Crashes, Left-commit, broken_commit}

module _ (crc : Bytes → ℕ) (lf : LogFile) (laws : Crashes lf) where
  open lf use {File, IoError, accepted, durable}
  open laws use {Broken}

  -- The log during a history: the records of the rounds that succeeded are durable; those of later rounds
  -- follow them in what was accepted, up to a break.
  pub record Inv (f : File) (done later : List Bytes) : Type 0 where
    pub missing : Bytes
    pub log : log_bytes crc (done ++ later) ≡ accepted f ++ missing
    pub sound : (missing ≡ []) ⊎ Broken f
    pub kept : (more : Bytes) × (durable f ≡ log_bytes crc done ++ more)

  whole_log :
      (f : File) (done later batch : List Bytes) (inv : Inv f done later)
      → inv.missing ≡ []
      → log_bytes crc (done ++ (later ++ batch)) ≡ accepted f ++ log_bytes crc batch
  whole_log f done later batch inv all =
      ap (log_bytes crc) (sym (append_assoc done later batch))
      ∙ log_bytes-append crc (done ++ later) batch
      ∙ rw (inv.log, all, append-nil) refl

  -- A round that fails.
  pub Inv-failed :
      (f : File) (done later : List Bytes) (d : Bytes) (batch : List Bytes)
      → Inv f done later
      → (later' : List Bytes) × ((later' ≡ later) ⊎ (later' ≡ later ++ d ∷ batch))
        × Inv (commit_batch crc lf f (d ∷ batch)).0 done later'
  Inv-failed f done later d batch inv =
      let f' = (commit_batch crc lf f (d ∷ batch)).0 in
      let left = Left-commit crc lf laws f (d ∷ batch) in
      let kept_ : (more : Bytes) × (durable f' ≡ log_bytes crc done ++ more) =
        (inv.kept.0 ++ left.kept.0, left.kept.1 ∙ rw (inv.kept.1, append_assoc) refl) in
      elim inv.sound [
        | inl all ↦ (
          later ++ d ∷ batch,
          inr refl,
          record {
            missing = left.rest;
            log =
                whole_log f done later (d ∷ batch) inv all
                ∙ rw (left.same, left.grew, append_assoc) refl;
            sound = left.ended;
            kept = kept_;
          },
        )
        | inr broken ↦
            let (_, same, still) = broken_commit crc lf laws f d batch broken in
            (
              later,
              inl refl,
              record {
                missing = inv.missing;
                log = rw same inv.log;
                sound = inr still;
                kept = kept_;
              },
            )
      ]

  -- A round that succeeds.
  pub Inv-durable :
      (f : File) (done later : List Bytes) (d : Bytes) (batch : List Bytes)
      → Inv f done later
      → (commit_batch crc lf f (d ∷ batch)).1 ≡ none
      → Inv (commit_batch crc lf f (d ∷ batch)).0 (done ++ (later ++ d ∷ batch)) []
  Inv-durable f done later d batch inv fine = elim inv.sound [
    | inl all ↦
        let (file, disk) = commit_batch_lem crc lf f (d ∷ batch) fine in
        record {
          missing = [];
          log =
              ap (log_bytes crc) (append-nil (done ++ (later ++ d ∷ batch)))
              ∙ whole_log f done later (d ∷ batch) inv all
              ∙ sym file
              ∙ sym (append-nil (accepted (commit_batch crc lf f (d ∷ batch)).0));
          sound = inl refl;
          kept = (
            [],
            disk
                ∙ sym (whole_log f done later (d ∷ batch) inv all)
                ∙ sym (append-nil (log_bytes crc (done ++ (later ++ d ∷ batch)))),
          );
        }
    | inr broken ↦ let ((e, bad), _, _) = broken_commit crc lf laws f d batch broken in absurd cc
  ]
