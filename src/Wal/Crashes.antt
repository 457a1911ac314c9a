-- ===== src/Wal/Crashes.antt =====
-- internal/storage/wal/wal.go: what a round leaves of its records when a write, the flush or the sync fails.
use on_cloud_kv.Prelude.{
  ℕ, ◌≡◌, refl, sym, ◌∙◌, ◌⊎◌, inl, inr, Option, none, some, List, [], ◌∷◌, ◌++◌, append_assoc,
  append-nil,
}
use mathlib.Core.Path.{subst}
use on_cloud_kv.Bytes.{Bytes}
use on_cloud_kv.Wal.{header, record_bytes, log_bytes}
use on_cloud_kv.Wal.Commit.{LogFile, ◌then_do◌, write_record, write_batch, sync_batch, commit_batch}

-- What a buffered writer and the file below it keep to, also after an error. A crash leaves a first part of
-- what was accepted, and nothing that is durable is lost. A write that fails takes a first part of its bytes,
-- and the writer accepts nothing after it.
module _ (lf : LogFile) where
  open lf use {File, IoError, write, flush, sync, accepted, durable}

  pub record Crashes : Type 1 where
    pub Broken : File → Type 0
    pub accepted-durable : (f : File) → (lost : Bytes) × (accepted f ≡ durable f ++ lost)
    pub taken-write :
        (f : File) (b : Bytes)
        → (taken : Bytes) × (rest : Bytes) × (b ≡ taken ++ rest)
          × (accepted (write f b).0 ≡ accepted f ++ taken)
    pub write-Broken :
        (f : File) (b : Bytes) (e : IoError) → (write f b).1 ≡ some e → Broken (write f b).0
    pub Broken-write :
        (f : File) (b : Bytes)
        → Broken f
        → ((e : IoError) × ((write f b).1 ≡ some e)) × (accepted (write f b).0 ≡ accepted f)
    pub accepted-flushed : (f : File) → accepted (flush f).0 ≡ accepted f
    pub accepted-synced : (f : File) → accepted (sync f).0 ≡ accepted f
    pub durable-write :
        (f : File) (b : Bytes) → (more : Bytes) × (durable (write f b).0 ≡ durable f ++ more)
    pub durable-flush : (f : File) → (more : Bytes) × (durable (flush f).0 ≡ durable f ++ more)
    pub durable-synced : (f : File) → (more : Bytes) × (durable (sync f).0 ≡ durable f ++ more)

module _ (crc : Bytes → ℕ) (lf : LogFile) (laws : Crashes lf) where
  open lf use {File, IoError, write, flush, sync, accepted, durable, accepted-write}
  open laws use {
    Broken, accepted-durable, taken-write, write-Broken, Broken-write, accepted-flushed,
    accepted-synced, durable-write, durable-flush, durable-synced,
  }

  -- What a call that writes some bytes did: it took a first part of them, and all of them unless it failed.
  record Grew (f : File) (r : File × Option IoError) (bytes : Bytes) : Type 0 where
    taken : Bytes
    rest : Bytes
    same : bytes ≡ taken ++ rest
    grew : accepted r.0 ≡ accepted f ++ taken
    ended : ((r.1 ≡ none) × (rest ≡ [])) ⊎ (Broken r.0 × ((e : IoError) × (r.1 ≡ some e)))
    kept : (more : Bytes) × (durable r.0 ≡ durable f ++ more)

  Grew-write : (f : File) (b : Bytes) → Grew f (write f b) b
  Grew-write f b =
      elim (write f b).1 as (λ o. (write f b).1 ≡ o → Grew f (write f b) b) [
        | none ↦ λ fine. record {
          taken = b;
          rest = [];
          same = sym (append-nil b);
          grew = accepted-write f b fine;
          ended = inl (fine, refl);
          kept = durable-write f b;
        }
        | some e ↦ λ bad.
            let (taken_, rest_, same_, grew_) = taken-write f b in
            record {
              taken = taken_;
              rest = rest_;
              same = same_;
              grew = grew_;
              ended = inr (write-Broken f b e bad, (e, bad));
              kept = durable-write f b;
            }
      ]
        refl

  kept_on :
      (f g h : File)
      → ((more : Bytes) × (durable g ≡ durable f ++ more))
      → ((more : Bytes) × (durable h ≡ durable g ++ more))
      → (more : Bytes) × (durable h ≡ durable f ++ more)
  kept_on f g h (a, p) (b, q) = (a ++ b, q ∙ rw (p, append_assoc) refl)

  Grew-then :
      (f : File) (r : File × Option IoError) (k : File → File × Option IoError)
      (bytes others : Bytes)
      → Grew f r bytes
      → Grew r.0 (k r.0) others
      → Grew f (r then_do k) (bytes ++ others)
  unfolding ◌then_do◌
  Grew-then f (f1, some e) k bytes others g g' = record {
    taken = g.taken;
    rest = g.rest ++ others;
    same = rw (g.same, append_assoc) refl;
    grew = g.grew;
    ended = elim g.ended [ inl (bad, _) ↦ absurd cc | inr broken ↦ inr broken ];
    kept = g.kept;
  }
  Grew-then f (f1, none) k bytes others g g' = record {
    taken = g.taken ++ g'.taken;
    rest = g'.rest;
    same = elim g.ended [
      | inl (_, none_left) ↦ rw (g.same, none_left, append-nil, g'.same, append_assoc) refl
      | inr (_, (e, bad)) ↦ absurd cc
    ];
    grew = g'.grew ∙ rw (g.grew, append_assoc) refl;
    ended = g'.ended;
    kept = kept_on f f1 (k f1).0 g.kept g'.kept;
  }

  Grew-write_record : (f : File) (d : Bytes) → Grew f (write_record crc lf f d) (record_bytes crc d)
  unfolding write_record record_bytes
  Grew-write_record f d =
      Grew-then f (write f (header crc d)) (λ f1. write f1 d) (header crc d) d
        (Grew-write f (header crc d)) (Grew-write (write f (header crc d)).0 d)

  write_batch_stuck :
      (f : File) (e : IoError) (batch : List Bytes)
      → write_batch crc lf f (some e) batch ≡ (f, some e)
  unfolding write_batch
  write_batch_stuck f e [] = refl
  write_batch_stuck f e (d ∷ batch) = write_batch_stuck f e batch

  write_batch_then :
      (r : File × Option IoError) (batch : List Bytes)
      → write_batch crc lf r.0 r.1 batch ≡ (r then_do λ f1. write_batch crc lf f1 none batch)
  unfolding ◌then_do◌
  write_batch_then (f, none) batch = refl
  write_batch_then (f, some e) batch = write_batch_stuck f e batch

  Grew-write_batch :
      (f : File) (batch : List Bytes)
      → Grew f (write_batch crc lf f none batch) (log_bytes crc batch)
  unfolding write_batch log_bytes
  Grew-write_batch f [] = record {
    taken = [];
    rest = [];
    same = refl;
    grew = sym (append-nil (accepted f));
    ended = inl (refl, refl);
    kept = ([], sym (append-nil (durable f)));
  }
  Grew-write_batch f (d ∷ batch) =
      subst (λ r. Grew f r (record_bytes crc d ++ log_bytes crc batch))
        (sym (write_batch_then (write_record crc lf f d) batch))
        (Grew-then f (write_record crc lf f d) (λ f1. write_batch crc lf f1 none batch)
          (record_bytes crc d) (log_bytes crc batch) (Grew-write_record f d)
          (Grew-write_batch (write_record crc lf f d).0 batch))

  -- What a round's writes, flush and sync leave: a first part of its records, and all of them unless the
  -- writer is broken.
  pub record Left (f f' : File) (batch : List Bytes) : Type 0 where
    pub taken : Bytes
    pub rest : Bytes
    pub same : log_bytes crc batch ≡ taken ++ rest
    pub grew : accepted f' ≡ accepted f ++ taken
    pub ended : (rest ≡ []) ⊎ Broken f'
    pub kept : (more : Bytes) × (durable f' ≡ durable f ++ more)

  synced_kept :
      (f : File) (r : File × Option IoError)
      → accepted r.0 ≡ accepted f
      → ((more : Bytes) × (durable r.0 ≡ durable f ++ more))
      → (accepted (r then_do sync).0 ≡ accepted f)
        × ((more : Bytes) × (durable (r then_do sync).0 ≡ durable f ++ more))
  unfolding ◌then_do◌
  synced_kept f (f1, some e) same kept = (same, kept)
  synced_kept f (f1, none) same kept =
      (accepted-synced f1 ∙ same, kept_on f f1 (sync f1).0 kept (durable-synced f1))

  Left-then :
      (f : File) (r : File × Option IoError) (batch : List Bytes)
      → Grew f r (log_bytes crc batch)
      → Left f (r then_do sync_batch crc lf).0 batch
  unfolding ◌then_do◌ sync_batch
  Left-then f (f1, some e) batch g = record {
    taken = g.taken;
    rest = g.rest;
    same = g.same;
    grew = g.grew;
    ended = elim g.ended [ inl (bad, _) ↦ absurd cc | inr broken ↦ inr broken.0 ];
    kept = g.kept;
  }
  Left-then f (f1, none) batch g =
      let (same_, kept_) = synced_kept f1 (flush f1) (accepted-flushed f1) (durable-flush f1) in
      record {
        taken = g.taken;
        rest = g.rest;
        same = g.same;
        grew = same_ ∙ g.grew;
        ended = elim g.ended [ inl (_, none_left) ↦ inl none_left | inr (_, (e, bad)) ↦ absurd cc ];
        kept = kept_on f f1 (flush f1 then_do sync).0 g.kept kept_;
      }

  pub Left-commit : (f : File) (batch : List Bytes) → Left f (commit_batch crc lf f batch).0 batch
  unfolding commit_batch
  Left-commit f batch =
      Left-then f (write_batch crc lf f none batch) batch (Grew-write_batch f batch)

  -- A broken writer takes nothing more.
  broken_then :
      (r : File × Option IoError) (k : File → File × Option IoError) (e : IoError)
      → r.1 ≡ some e
      → (r then_do k) ≡ r
  unfolding ◌then_do◌
  broken_then (f, none) k e h = absurd cc
  broken_then (f, some x) k e h = refl

  commit_broken :
      (f : File) (d : Bytes) (batch : List Bytes) (e : IoError)
      → (write f (header crc d)).1 ≡ some e
      → commit_batch crc lf f (d ∷ batch) ≡ write f (header crc d)
  unfolding commit_batch write_batch write_record
  commit_broken f d batch e bad =
      let head = write f (header crc d) in
      rw
        (
          broken_then head (λ f1. write f1 d) e bad,
          write_batch_then head batch,
          broken_then head (λ f1. write_batch crc lf f1 none batch) e bad,
        )
        (broken_then head (sync_batch crc lf) e bad)

  pub broken_commit :
      (f : File) (d : Bytes) (batch : List Bytes)
      → Broken f
      → ((e : IoError) × ((commit_batch crc lf f (d ∷ batch)).1 ≡ some e))
        × (accepted (commit_batch crc lf f (d ∷ batch)).0 ≡ accepted f)
        × Broken (commit_batch crc lf f (d ∷ batch)).0
  broken_commit f d batch broken =
      let ((e, bad), same) = Broken-write f (header crc d) broken in
      let still = write-Broken f (header crc d) e bad in
      rw (commit_broken f d batch e bad) ((e, bad), same, still)
