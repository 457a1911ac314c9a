-- ===== src/Router.antt =====
-- internal/consistency/router.go: reads by consistency mode. Raft is a parameter: what `VerifyLeader`
-- answers, and the applied index that each look at it finds.
pub mod Reads
use on_cloud_kv.Prelude.{
  ℕ, zero, suc, ◌==◌, ◌%◌, ◌^◌, ◌≤◌, Bool, true, false, Option, none, some, List, [], ◌∷◌, leb,
  if◌then◌else◌,
}
use on_cloud_kv.Keys.{Key}
use on_cloud_kv.Entry.{Entry, empty_entry}
use on_cloud_kv.Bloom.{Sizing}
use on_cloud_kv.Sstable.Reader.{Outcome, ok, err, panic, out_of_fuel}
use on_cloud_kv.Engine
use on_cloud_kv.Engine.{Engine}

-- Any other string is served as `eventual`.
pub data Mode : Type 0 where
  strong eventual read_your_writes monotonic other_mode : Mode

-- One round of the loop of `waitForIndex`: the applied index that it finds, and whether the context is
-- done when it waits.
pub record Look : Type 0 where
  pub applied : ℕ
  pub cancelled : Bool

-- How waiting ends; or it has not ended when the rounds do.
pub data Waited : Type 0 where
  reached context_done waiting : Waited

unfoldable pub wait_loop : ℕ → List Look → Waited
wait_loop index [] = waiting
wait_loop index (l ∷ looks) =
    let rest = wait_loop index looks in
    if leb index l.applied then reached else if l.cancelled then context_done else rest

-- `waitForIndex`
unfoldable pub wait_for_index : ℕ → List Look → Waited
wait_for_index index looks = if index == 0 then reached else wait_loop index looks

-- What a read ends with: an answer, the error of its mode, or no end yet.
pub data Reply : Type 0 where
  replied : Outcome (Entry × Bool) → Reply
  refused pending : Reply

unfoldable pub after_wait : Waited → Outcome (Entry × Bool) → Reply
after_wait reached o = replied o
after_wait context_done o = refused
after_wait waiting o = pending

-- `Get`: the store is read after the wait, so `store` is the engine at that later moment. `verified` is
-- the answer of `VerifyLeader`. An index that the client sends is an int64, taken as a uint64.
unfoldable pub get :
    {Log : Type 0} → Sizing → Bool → List Look → Engine Log → Key → Mode → ℕ → ℕ → Reply
get z verified looks store key strong session_index min_version =
    if verified then replied (Engine.get z store key) else refused
get z verified looks store key read_your_writes session_index min_version =
    after_wait (wait_for_index session_index looks) (Engine.get z store key)
get z verified looks store key monotonic session_index min_version =
    after_wait (wait_for_index min_version looks) (Engine.get z store key)
get z verified looks store key eventual session_index min_version = replied (Engine.get z store key)
get z verified looks store key other_mode session_index min_version =
    replied (Engine.get z store key)
