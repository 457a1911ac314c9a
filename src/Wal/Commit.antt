-- ===== src/Wal/Commit.antt =====
-- internal/storage/wal/wal.go: the group commit loop over an abstract log file.
use on_cloud_kv.Prelude.{
  ◌>>=◌, ℕ, ◌≡◌, refl, sym, ◌∙◌, Bool, true, false, Option, none, some, List, [], ◌∷◌, ◌++◌, map,
  append_assoc, append-nil, arith, if◌then◌else◌, get_elem?, zero, suc, All,
}
use on_cloud_kv.Bytes.{Bytes}
use on_cloud_kv.Wal.{header, record_bytes, log_bytes, read_all}
use on_cloud_kv.Wal.Replay.{Fits, log_bytes-append, read_all-log_bytes}

-- The file behind its buffered writer (os.File and bufio.Writer): each call hands back the error that
-- the caller sees. `accepted` is all that was written so far, in the buffer or in the file, and
-- `durable` what a crash leaves.
pub record LogFile : Type 1 where
  pub File : Type 0
  pub IoError : Type 0
  pub write : File → Bytes → File × Option IoError
  pub flush : File → File × Option IoError
  pub sync : File → File × Option IoError
  pub close_file : File → File × Option IoError
  pub accepted : File → Bytes
  pub durable : File → Bytes
  pub flushed : File → Bytes
  -- a write with no error appends its bytes
  pub accepted-write :
      (f : File) (b : Bytes) → (write f b).1 ≡ none → accepted (write f b).0 ≡ accepted f ++ b
  -- a flush with no error hands the buffer to the file
  pub flushed-flush : (f : File) → (flush f).1 ≡ none → flushed (flush f).0 ≡ accepted f
  pub accepted-flush : (f : File) → (flush f).1 ≡ none → accepted (flush f).0 ≡ accepted f
  pub accepted-sync : (f : File) → (sync f).1 ≡ none → accepted (sync f).0 ≡ accepted f
  -- a sync with no error makes what the file was handed durable
  pub durable-sync : (f : File) → (sync f).1 ≡ none → durable (sync f).0 ≡ flushed f

-- `if err != nil { return err }`: the next call is made only if this one had no error.
infixl 20 ◌then_do◌
unfoldable pub ◌then_do◌ {ℓ} : {F E : Type ℓ} → F × Option E → (F → F × Option E) → F × Option E
(f, some e) then_do k = (f, some e)
(f, none) then_do k = k f

-- A chain without error is made of calls without error.
then_do_ok {ℓ} :
    {F E : Type ℓ} (r : F × Option E) (k : F → F × Option E)
    → (r then_do k).1 ≡ none
    → (r.1 ≡ none) × ((k r.0).1 ≡ none) × ((r then_do k).0 ≡ (k r.0).0)
unfolding ◌then_do◌
then_do_ok (f, some e) k h = cc
then_do_ok (f, none) k h = (refl, h, refl)

module _ (crc : Bytes → ℕ) (lf : LogFile) where
  open lf use {
    File, IoError, write, flush, sync, close_file, accepted, durable, flushed, accepted-write,
    flushed-flush, durable-sync, accepted-flush, accepted-sync,
  }

  -- `writeRecord`
  unfoldable pub write_record : File → Bytes → File × Option IoError
  write_record f d = write f (header crc d) then_do λ f1. write f1 d

  -- The first loop of a round: after an error nothing more is written.
  unfoldable pub write_batch : File → Option IoError → List Bytes → File × Option IoError
  write_batch f write_err [] = (f, write_err)
  write_batch f (some e) (d ∷ batch) = write_batch f (some e) batch
  write_batch f none (d ∷ batch) = let (f1, err) = write_record f d in write_batch f1 err batch

  -- `Flush`, then `Sync` if it succeeded.
  unfoldable pub sync_batch : File → File × Option IoError
  sync_batch f = flush f then_do sync

  -- What a round does with a batch of requests, and the error that it answers all of them with.
  unfoldable pub commit_batch : File → List Bytes → File × Option IoError
  commit_batch f batch = write_batch f none batch then_do sync_batch

  pub record Wal : Type 0 where
    pub file : File
    pub pending : List Bytes
    pub closed : Bool

  -- `Open`, once the file is open
  unfoldable pub open_wal : File → Wal
  open_wal f = record { file = f; pending = []; closed = false }

  -- `Append`: the request waits for a round of the loop. After `Close` the send on the closed channel
  -- panics: none.
  unfoldable pub append : Wal → Bytes → Option Wal
  append w d = if w.closed then none else some (record w { pending = w.pending ++ d ∷ [] })

  abbrev pub Answer : Type 0
  Answer = Bytes × Option IoError

  -- The batch taken off the pending requests, and the answers that are sent to them.
  unfoldable pub answer_batch : Wal → List Bytes → Wal × List Answer
  answer_batch w [] = (w, [])
  answer_batch w (d ∷ batch) =
      let (f, err) = commit_batch w.file (d ∷ batch) in
      (record w { file = f; pending = [] }, map (λ (b : Bytes). (b, err)) (d ∷ batch))

  -- A round of `groupCommitLoop`: the requests that it answers, with their errors. The loop ends,
  -- and answers nothing, once the log is closed.
  unfoldable pub commit_round : Wal → Option (Wal × List Answer)
  commit_round w = if w.closed then none else some (answer_batch w w.pending)

  -- `Append` of a caller that waits for its answer, on an open log where no other request is pending: the
  -- round that follows takes the request alone.
  unfoldable pub append_alone : File → Bytes → File × Option IoError
  append_alone f d = commit_batch f (d ∷ [])

  -- `Close`: the loop has ended before the last flush. A second call closes the channel again, which panics:
  -- none.
  unfoldable pub close : Wal → Option (Wal × Option IoError)
  close w =
      let (f, err) = flush w.file then_do sync then_do close_file in
      if w.closed then none else some (record w { file = f; closed = true }, err)

  accepted-write_record :
      (f : File) (d : Bytes)
      → (write_record f d).1 ≡ none
      → accepted (write_record f d).0 ≡ accepted f ++ record_bytes crc d
  unfolding write_record record_bytes
  accepted-write_record f d h =
      let (head_ok, data_ok, same) = then_do_ok (write f (header crc d)) (λ f1. write f1 d) h in
      rw same (
        rw (
          accepted-write (write f (header crc d)).0 d data_ok,
          accepted-write f (header crc d) head_ok,
          append_assoc,
        ))

  pub write_batch_failed :
      (f : File) (e : IoError) (batch : List Bytes) → (write_batch f (some e) batch).1 ≡ some e
  unfolding write_batch
  write_batch_failed f e [] = refl
  write_batch_failed f e (d ∷ batch) = write_batch_failed f e batch

  write_batch_first :
      (f : File) (err : Option IoError) (batch : List Bytes)
      → (write_batch f err batch).1 ≡ none
      → err ≡ none
  write_batch_first f none batch h = refl
  write_batch_first f (some e) batch h = cc (write_batch_failed f e batch)

  accepted-write_batch :
      (f : File) (err : Option IoError) (batch : List Bytes)
      → (write_batch f err batch).1 ≡ none
      → accepted (write_batch f err batch).0 ≡ accepted f ++ log_bytes crc batch
  unfolding write_batch log_bytes
  accepted-write_batch f (some e) batch h = cc (write_batch_failed f e batch)
  accepted-write_batch f none [] h = sym (append-nil (accepted f))
  accepted-write_batch f none (d ∷ batch) h =
      let (f1, err) = write_record f d in
      accepted-write_batch f1 err batch h
      ∙ rw (accepted-write_record f d (write_batch_first f1 err batch h), append_assoc)

  -- After a batch with no error its records stand behind what was written before, and all of it is
  -- durable.
  pub commit_batch_lem :
      (f : File) (batch : List Bytes)
      → (commit_batch f batch).1 ≡ none
      → (accepted (commit_batch f batch).0 ≡ accepted f ++ log_bytes crc batch)
        × (durable (commit_batch f batch).0 ≡ accepted f ++ log_bytes crc batch)
  unfolding commit_batch sync_batch
  commit_batch_lem f batch h =
      let (wrote, rest_ok, same) = then_do_ok (write_batch f none batch) sync_batch h in
      let f1 = (write_batch f none batch).0 in
      let (flush_ok, sync_ok, same') = then_do_ok (flush f1) sync rest_ok in
      let f2 = (flush f1).0 in
      rw (same, same')
        (
          accepted-sync f2 sync_ok
              ∙ accepted-flush f1 flush_ok
              ∙ accepted-write_batch f none batch wrote,
          durable-sync f2 sync_ok
              ∙ flushed-flush f1 flush_ok
              ∙ accepted-write_batch f none batch wrote,
        )

  append_alone_lem :
      (f : File) (d : Bytes)
      → (append (open_wal f) d >>= commit_round)
        ≡ some (open_wal (append_alone f d).0, (d, (append_alone f d).1) ∷ [])
  unfolding append commit_round answer_batch append_alone open_wal
  append_alone_lem f d = refl

  -- The error that the request at a place in the answers was sent.
  abbrev pub error_at : List Answer → ℕ → Option (Option IoError)
  error_at answers i = get_elem? (map (λ (a : Answer). a.1) answers) i

  error_at_same :
      (err : Option IoError) (batch : List Bytes) (i : ℕ)
      → error_at (map (λ (b : Bytes). (b, err)) batch) i ≡ some none
      → err ≡ none
  error_at_same err [] i h = cc
  error_at_same err (b ∷ batch) zero h = ground arith
  error_at_same err (b ∷ batch) (suc i) h = error_at_same err batch i h

  answer_batch-durable :
      (w : Wal) (batch ds : List Bytes) (i : ℕ)
      → accepted w.file ≡ log_bytes crc ds
      → error_at (answer_batch w batch).1 i ≡ some none
      → (accepted (answer_batch w batch).0.file ≡ log_bytes crc (ds ++ batch))
        × (durable (answer_batch w batch).0.file ≡ log_bytes crc (ds ++ batch))
  unfolding answer_batch
  answer_batch-durable w [] ds i start acked = cc
  answer_batch-durable w (d ∷ batch) ds i start acked =
      let (file, disk) =
        commit_batch_lem w.file (d ∷ batch)
          (error_at_same (commit_batch w.file (d ∷ batch)).1 (d ∷ batch) i acked) in
      rw (log_bytes-append, ← start) (file, disk)

  -- A round that answers any of its requests with no error has made all of them durable: a replay
  -- of what is on the disk returns the records of the log before the round, and then every request
  -- of the round in the order of arrival, if the log held whole records and all of them fit.
  pub commit_round-durable :
      (w w' : Wal) (answers : List Answer) (ds : List Bytes) (i : ℕ)
      → accepted w.file ≡ log_bytes crc ds
      → All (Fits crc) (ds ++ w.pending)
      → commit_round w ≡ some (w', answers)
      → error_at answers i ≡ some none
      → (accepted w'.file ≡ log_bytes crc (ds ++ w.pending))
        × (read_all crc (durable w'.file) ≡ some (ds ++ w.pending, none))
  unfolding commit_round
  commit_round-durable w w' answers ds i start fits round acked =
      let e : (answer_batch w w.pending).0 ≡ w' = ground arith in
      let e' : (answer_batch w w.pending).1 ≡ answers = ground arith in
      let (file, disk) = answer_batch-durable w w.pending ds i start (rw e' acked) in
      rw (← e) (file, rw disk (read_all-log_bytes crc (ds ++ w.pending) fits))
