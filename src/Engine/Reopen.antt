-- ===== src/Engine/Reopen.antt =====
-- internal/storage/engine.go, internal/storage/wal/wal.go: the log that `Open` finds after a crash or a close.
use on_cloud_kv.Prelude.{
  ℕ, ◌<◌, ◌≡◌, sym, ap, ◌∙◌, Bool, true, false, Option, none, some, List, [], ◌∷◌, ◌++◌, append-nil,
  length, take, All, All-append,
}
use on_cloud_kv.Bytes.{Bytes}
use on_cloud_kv.Wal.{record_bytes, log_bytes, read_all}
use on_cloud_kv.Wal.Replay.{Fits, log_bytes-append, read_all_torn}
use on_cloud_kv.Wal.Commit.{LogFile}
use on_cloud_kv.Engine.{WalRecord}
use on_cloud_kv.Engine.Recovery.{Holds, read_all-Holds}

module _ (crc : Bytes → ℕ) (lf : LogFile) (encode : WalRecord → Bytes)
    (decode : Bytes → Option WalRecord) where
  open lf use {File, accepted, durable}

  -- A file that is opened anew has what was durable of the one before.
  pub record Reopens (f f1 : File) : Type 0 where
    pub accepts : accepted f1 ≡ durable f
    pub kept : durable f1 ≡ durable f

  -- What is durable of a log: whole records, and what a crash left of one more.
  pub data Durable : Bool → File → List Bytes → Type 0 where
    whole : {f : File} {raws : List Bytes} → Holds crc lf encode decode f raws → Durable true f raws
    torn :
        {f : File} {raws : List Bytes} (d : Bytes) (n : ℕ)
        → All (Fits crc) raws
        → Fits crc d
        → n < length (record_bytes crc d)
        → durable f ≡ log_bytes crc raws ++ take n (record_bytes crc d)
        → Durable false f raws

  pub Durable-true :
      (f : File) (raws : List Bytes) → Durable true f raws → Holds crc lf encode decode f raws
  Durable-true f raws (whole h) = h

  pub read_all-Durable :
      {b : Bool} (f : File) (raws : List Bytes)
      → Durable b f raws
      → read_all crc (durable f) ≡ some (raws, none)
  read_all-Durable f raws (whole h) = (read_all-Holds crc lf encode decode f raws h).0
  read_all-Durable f raws (torn d n fits fit short left) =
      rw left (read_all_torn crc raws d n fits fit short)

  pub Durable-Reopens :
      {b : Bool} (f f1 : File) (raws : List Bytes)
      → Durable b f raws
      → Reopens f f1
      → Durable b f1 raws
  Durable-Reopens f f1 raws (whole h) again =
      whole (record { accepts = again.accepts ∙ h.kept; kept = again.kept ∙ h.kept; fit = h.fit })
  Durable-Reopens f f1 raws (torn d n fits fit short left) again =
      torn d n fits fit short (again.kept ∙ left)

  -- One more whole record.
  pub Holds-record :
      (f f1 : File) (raws : List Bytes) (d : Bytes)
      → Holds crc lf encode decode f raws
      → Fits crc d
      → accepted f1 ≡ durable f ++ record_bytes crc d
      → durable f1 ≡ durable f ++ record_bytes crc d
      → Holds crc lf encode decode f1 (raws ++ d ∷ [])
  unfolding log_bytes
  Holds-record f f1 raws d h fits accepts_ kept_ =
      let grown : durable f ++ record_bytes crc d ≡ log_bytes crc (raws ++ d ∷ []) =
        ap (λ b. b ++ record_bytes crc d) h.kept
        ∙ ap (λ b. log_bytes crc raws ++ b) (sym (append-nil (record_bytes crc d)))
        ∙ sym (log_bytes-append crc raws (d ∷ [])) in
      record {
        accepts = accepts_ ∙ grown;
        kept = kept_ ∙ grown;
        fit = All-append (Fits crc) raws (d ∷ []) h.fit (fits, tt);
      }
