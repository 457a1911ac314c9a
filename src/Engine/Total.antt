-- ===== src/Engine/Total.antt =====
-- internal/storage/engine.go: reads end whatever is on the disk.
use on_cloud_kv.Bytes.{Bytes}
use on_cloud_kv.Entry.{Entry}
use on_cloud_kv.Skiplist
use on_cloud_kv.Sstable.Reader
use on_cloud_kv.Sstable.Reader.{Outcome, ok, err, panic, out_of_fuel}
use on_cloud_kv.Engine.{Engine}

-- A call that returns an answer or panics: no error, and no fuel that runs out.
abbrev pub IsAnswered {ℓ} : {A : Type ℓ} → Outcome A → Type 0
IsAnswered (ok a) = Unit
IsAnswered panic = Unit
IsAnswered err = ⊥
IsAnswered out_of_fuel = ⊥
