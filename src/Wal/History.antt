-- ===== src/Wal/History.antt =====
-- internal/storage/wal/wal.go: the log over a whole history of appends and rounds, at a crash.
use on_cloud_kv.Prelude.{
  All-append, Within, within_nil, Within-pass, Within-refl, Within-append, ℕ, ◌≡◌, refl, sym, ap,
  ◌∙◌, ◌⊎◌, inl, inr, Option, none, some, List, [], ◌∷◌, ◌++◌, map, append_assoc, append-nil,
  Bool-cases, All,
}
use mathlib.Core.List.{append_cancel_left}
use on_cloud_kv.Bytes.{Bytes}
use on_cloud_kv.Wal.{log_bytes, read_all}
use on_cloud_kv.Wal.Replay.{Fits, log_bytes-append}
use on_cloud_kv.Wal.Commit.{LogFile, commit_batch, Wal, append, answer_batch, commit_round}
use on_cloud_kv.Wal.Torn.{read_all-torn_log}
use on_cloud_kv.Wal.Crashes.{Crashes}
use on_cloud_kv.Wal.Rounds.{Inv, Inv-failed, Inv-durable}

-- What happens to the log: a request arrives, or the loop wakes up.
pub data Happens : Type 0 where
  arrives : Bytes → Happens
  wakes : Happens

abbrev pub arrived : List Happens → List Bytes
arrived [] = []
arrived (arrives d ∷ hs) = d ∷ arrived hs
arrived (wakes ∷ hs) = arrived hs

module _ (crc : Bytes → ℕ) (lf : LogFile) where
  open lf use {File, IoError, accepted, durable}

  -- A history, and the answers that were sent in it; a loop that has ended sends none, and a request to a
  -- closed log panics, which ends the program.
  unfoldable pub run : Wal crc lf → List Happens → Wal crc lf × List (Bytes × Option IoError)
  run w [] = (w, [])
  run w (arrives d ∷ hs) = elim (append crc lf w d) [ none ↦ (w, []) | some w1 ↦ run w1 hs ]
  run w (wakes ∷ hs) = elim (commit_round crc lf w) [
    | none ↦ (w, [])
    | some r ↦ let (w1, answers) = run r.0 hs in (w1, r.1 ++ answers)
  ]

  -- The requests that were answered without an error.
  abbrev pub acked : List (Bytes × Option IoError) → List Bytes
  acked [] = []
  acked ((d, none) ∷ answers) = d ∷ acked answers
  acked ((d, some e) ∷ answers) = acked answers

  acked-append : (xs ys : List (Bytes × Option IoError)) → acked (xs ++ ys) ≡ acked xs ++ acked ys
  acked-append [] ys = refl
  acked-append ((d, none) ∷ xs) ys = ap (λ l. d ∷ l) (acked-append xs ys)
  acked-append ((d, some e) ∷ xs) ys = acked-append xs ys

  acked_all : (batch : List Bytes) → acked (map (λ (b : Bytes). (b, none)) batch) ≡ batch
  acked_all [] = refl
  acked_all (b ∷ batch) = ap (λ l. b ∷ l) (acked_all batch)

  acked_none :
      (e : IoError) (batch : List Bytes) → acked (map (λ (b : Bytes). (b, some e)) batch) ≡ []
  acked_none e [] = refl
  acked_none e (b ∷ batch) = acked_none e batch

module _ (crc : Bytes → ℕ) (lf : LogFile) (laws : Crashes lf) where
  open lf use {File, IoError, accepted, durable}

  -- What a history adds: the records that it made durable, which hold the acknowledged ones.
  record Added (w : Wal crc lf) (done : List Bytes) (answers : List (Bytes × Option IoError))
      : Type 0 where
    new : List Bytes
    later : List Bytes
    inv : Inv crc lf laws w.file (done ++ new) later
    held : Within (acked crc lf answers) new
    fits_done : All (Fits crc) (done ++ new)
    fits_later : All (Fits crc) later

  Added-failed :
      (w w1 : Wal crc lf) (done later batch : List Bytes) (e : IoError)
      → ((later' : List Bytes) × ((later' ≡ later) ⊎ (later' ≡ later ++ batch))
          × Inv crc lf laws w1.file done later')
      → All (Fits crc) done
      → All (Fits crc) later
      → All (Fits crc) batch
      → Added w1 done (map (λ (b : Bytes). (b, some e)) batch)
  Added-failed w w1 done later batch e (later', which, inv_) fd fl fb = record {
    new = [];
    later = later';
    inv = rw (append-nil done) inv_;
    held = rw (acked_none crc lf e batch) within_nil;
    fits_done = rw (append-nil done) fd;
    fits_later = elim which [
      | inl same ↦ rw same fl
      | inr more ↦ rw more (All-append (Fits crc) later batch fl fb)
    ];
  }

  Added-nothing :
      (w : Wal crc lf) (done later : List Bytes)
      → Inv crc lf laws w.file done later
      → All (Fits crc) done
      → All (Fits crc) later
      → Added w done []
  Added-nothing w done later inv_ fd fl = record {
    new = [];
    later = later;
    inv = rw (append-nil done) inv_;
    held = within_nil;
    fits_done = rw (append-nil done) fd;
    fits_later = fl;
  }

  Added-round :
      (w : Wal crc lf) (done later batch : List Bytes)
      → Inv crc lf laws w.file done later
      → All (Fits crc) done
      → All (Fits crc) later
      → All (Fits crc) batch
      → Added (answer_batch crc lf w batch).0 done (answer_batch crc lf w batch).1
  unfolding answer_batch
  Added-round w done later [] inv_ fd fl fb = Added-nothing w done later inv_ fd fl
  Added-round w done later (d ∷ batch) inv_ fd fl fb =
      let r = commit_batch crc lf w.file (d ∷ batch) in
      let w1 : Wal crc lf = record w { file = r.0; pending = [] } in
      elim r.1 as (λ o. r.1 ≡ o → Added w1 done (map (λ (b : Bytes). (b, o)) (d ∷ batch))) [
        | none ↦ λ fine. record {
          new = later ++ d ∷ batch;
          later = [];
          inv = Inv-durable crc lf laws w.file done later d batch inv_ fine;
          held = rw (acked_all crc lf (d ∷ batch)) (Within-pass later (Within-refl (d ∷ batch)));
          fits_done =
              All-append (Fits crc) done (later ++ d ∷ batch) fd
                (All-append (Fits crc) later (d ∷ batch) fl fb);
          fits_later = tt;
        }
        | some e ↦ λ bad.
            Added-failed w w1 done later (d ∷ batch) e
              (Inv-failed crc lf laws w.file done later d batch inv_) fd fl fb
      ]
        refl

  Added-then :
      (w1 w2 : Wal crc lf) (done : List Bytes) (answers more : List (Bytes × Option IoError))
      (a : Added w1 done answers)
      → Added w2 (done ++ a.new) more
      → Added w2 done (answers ++ more)
  Added-then w1 w2 done answers more a b = record {
    new = a.new ++ b.new;
    later = b.later;
    inv = rw (← append_assoc done a.new b.new) b.inv;
    held = rw (acked-append crc lf answers more) (Within-append a.held b.held);
    fits_done = rw (← append_assoc done a.new b.new) b.fits_done;
    fits_later = b.fits_later;
  }

  pending-Fits :
      (w : Wal crc lf) (batch : List Bytes)
      → All (Fits crc) w.pending
      → All (Fits crc) (answer_batch crc lf w batch).0.pending
  unfolding answer_batch
  pending-Fits w [] h = h
  pending-Fits w (d ∷ batch) h = tt

  commit_round-cases :
      (w : Wal crc lf)
      → (commit_round crc lf w ≡ none)
        ⊎ (commit_round crc lf w ≡ some (answer_batch crc lf w w.pending))
  unfolding commit_round
  commit_round-cases w = elim (Bool-cases w.closed) [
    | inl ended ↦ inl (rw ended refl)
    | inr going ↦ inr (rw going refl)
  ]

  append-cases :
      (w : Wal crc lf) (d : Bytes)
      → (append crc lf w d ≡ none)
        ⊎ (append crc lf w d ≡ some (record w { pending = w.pending ++ d ∷ [] }))
  unfolding append
  append-cases w d = elim (Bool-cases w.closed) [
    | inl ended ↦ inl (rw ended refl)
    | inr going ↦ inr (rw going refl)
  ]

  run-Added :
      (w : Wal crc lf) (done later : List Bytes) (hs : List Happens)
      → Inv crc lf laws w.file done later
      → All (Fits crc) done
      → All (Fits crc) later
      → All (Fits crc) w.pending
      → All (Fits crc) (arrived hs)
      → Added (run crc lf w hs).0 done (run crc lf w hs).1
  unfolding run
  run-Added w done later [] inv_ fd fl fp fa = Added-nothing w done later inv_ fd fl
  run-Added w done later (arrives d ∷ hs) inv_ fd fl fp fa = elim (append-cases w d) [
    | inl ended ↦ rw (run, ended) (Added-nothing w done later inv_ fd fl)
    | inr going ↦
        rw (run, going)
          (run-Added (record w { pending = w.pending ++ d ∷ [] }) done later hs inv_ fd fl
            (All-append (Fits crc) w.pending (d ∷ []) fp (fa.0, tt)) fa.1)
  ]
  run-Added w done later (wakes ∷ hs) inv_ fd fl fp fa = elim (commit_round-cases w) [
    | inl ended ↦ rw (run, ended) (Added-nothing w done later inv_ fd fl)
    | inr going ↦
        let r = answer_batch crc lf w w.pending in
        let a = Added-round w done later w.pending inv_ fd fl fp in
        rw (run, going)
          (Added-then r.0 (run crc lf r.0 hs).0 done r.1 (run crc lf r.0 hs).1 a (
            run-Added r.0 (done ++ a.new) a.later hs a.inv a.fits_done a.fits_later
              (pending-Fits w w.pending fp) fa))
  ]

  -- What a crash leaves is the durable records and a first part of the later ones.
  Added-read_all :
      (w : Wal crc lf) (done : List Bytes) (answers : List (Bytes × Option IoError))
      → Added w done answers
      → (recovered : List Bytes) × (read_all crc (durable w.file) ≡ some (done ++ recovered, none))
        × Within (acked crc lf answers) recovered
  Added-read_all w done answers a =
      let stable = log_bytes crc (done ++ a.new) in
      let (lost, split) = laws.accepted-durable w.file in
      let (more, kept_) = a.inv.kept in
      let parts : stable ++ (more ++ (lost ++ a.inv.missing)) ≡ stable ++ log_bytes crc a.later =
        sym (append_assoc stable more (lost ++ a.inv.missing))
        ∙ rw (← kept_, ← append_assoc (durable w.file) lost a.inv.missing, ← split, ← a.inv.log)
            (log_bytes-append crc (done ++ a.new) a.later) in
      let (extra, after, same, read) =
        read_all-torn_log crc (done ++ a.new) a.later more (lost ++ a.inv.missing)
          (append_cancel_left stable (more ++ (lost ++ a.inv.missing)) (log_bytes crc a.later)
            parts)
          a.fits_done a.fits_later in
      (
        a.new ++ extra,
        rw (kept_, read, append_assoc) refl,
        rw (← append-nil (acked crc lf answers)) (Within-append a.held within_nil),
      )

  -- On a file that keeps to the laws of `Crashes`, whatever requests arrive, whenever the loop wakes up, and
  -- whichever rounds fail to write, to flush or to sync: a crash at the end of the history leaves a file whose
  -- replay has no error and returns the records of the log before it, then records that contain every
  -- request that was answered without an error, in the order of the answers. The log was whole and durable
  -- at the start, and the length and the checksum of each record fit 32 bits.
  pub run-durable :
      (w : Wal crc lf) (ds : List Bytes) (hs : List Happens)
      → accepted w.file ≡ log_bytes crc ds
      → durable w.file ≡ log_bytes crc ds
      → All (Fits crc) ds
      → All (Fits crc) w.pending
      → All (Fits crc) (arrived hs)
      → (recovered : List Bytes) × (read_all crc (durable (run crc lf w hs).0.file)
          ≡ some (ds ++ recovered, none))
        × Within (acked crc lf (run crc lf w hs).1) recovered
  run-durable w ds hs whole disk fd fp fa =
      let start : Inv crc lf laws w.file ds [] = record {
        missing = [];
        log = ap (log_bytes crc) (append-nil ds) ∙ sym whole ∙ sym (append-nil (accepted w.file));
        sound = inl refl;
        kept = ([], disk ∙ sym (append-nil (log_bytes crc ds)));
      } in
      let a = run-Added w ds [] hs start fd tt fp fa in
      Added-read_all (run crc lf w hs).0 ds (run crc lf w hs).1 a
