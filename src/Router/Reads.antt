-- ===== src/Router/Reads.antt =====
-- internal/consistency/router.go: when a read is answered.
use on_cloud_kv.Prelude.{
  ℕ, suc, ◌==◌, ==_iff, ◌⊎◌, ◌≡◌, ◌≤◌, refl, Bool, true, false, some, List, [], ◌∷◌, leb, arith,
  Bool-cases, inl, inr, get_elem?,
}
use on_cloud_kv.Keys.{Key}
use on_cloud_kv.Entry.{Entry}
use on_cloud_kv.Bloom.{Sizing}
use on_cloud_kv.Sstable.Reader.{Outcome}
use on_cloud_kv.Engine
use on_cloud_kv.Engine.{Engine}
use on_cloud_kv.Router.{
  Mode, strong, eventual, read_your_writes, monotonic, other_mode, Look, Waited, reached,
  context_done, waiting, wait_loop, wait_for_index, replied, after_wait, get,
}

-- Some look found the index applied.
abbrev pub Applied : ℕ → List Look → Type 0
Applied index looks = (i : ℕ) × (l : Look) × (get_elem? looks i ≡ some l) × (index ≤ l.applied)

wait_loop-Applied :
    (index : ℕ) (looks : List Look) → wait_loop index looks ≡ reached → Applied index looks
unfolding wait_loop
wait_loop-Applied index [] h = cc
wait_loop-Applied index (l ∷ looks) h = elim (Bool-cases (leb index l.applied)) [
  | inl there ↦ (0, l, refl, ground arith)
  | inr short ↦ elim (Bool-cases l.cancelled) [
    | inl gone ↦ cc (rw (short, gone) at h)
    | inr open_ ↦
        let (i, l', at_i, le) = wait_loop-Applied index looks (rw (short, open_) at h) in
        (suc i, l', at_i, le)
  ]
]

after_wait-reached :
    (w : Waited) (o r : Outcome (Entry × Bool))
    → after_wait w o ≡ replied r
    → (w ≡ reached) × (r ≡ o)
unfolding after_wait
after_wait-reached reached o r h = (refl, ground arith)
after_wait-reached context_done o r h = absurd cc
after_wait-reached waiting o r h = absurd cc

wait_for_index-Applied :
    (index : ℕ) (looks : List Look)
    → wait_for_index index looks ≡ reached
    → (index ≡ 0) ⊎ Applied index looks
unfolding wait_for_index
wait_for_index-Applied index looks h = elim (Bool-cases (index == 0)) [
  | inl is_zero ↦ inl ((==_iff index 0).0 is_zero)
  | inr positive ↦ inr (wait_loop-Applied index looks (rw positive at h))
]

-- What each mode asks for before a read is answered: the leader is verified; the index of the session's last
-- write, or the version that the client has seen, was found applied, or is 0; nothing for other modes.
abbrev pub Granted : Bool → List Look → Mode → ℕ → ℕ → Type 0
Granted verified looks strong session_index min_version = verified ≡ true
Granted verified looks read_your_writes session_index min_version =
    (session_index ≡ 0) ⊎ Applied session_index looks
Granted verified looks monotonic session_index min_version =
    (min_version ≡ 0) ⊎ Applied min_version looks
Granted verified looks eventual session_index min_version = Unit
Granted verified looks other_mode session_index min_version = Unit

-- A read that is answered is answered with what the store holds, and only after what its mode asks
-- for: a strong read after the leader was verified, the reads of a session and of a client's
-- watermark after some look found their index applied, unless that index is 0; the other modes ask
-- for nothing.
pub get-Granted :
    {Log : Type 0} (z : Sizing) (verified : Bool) (looks : List Look) (store : Engine Log)
    (key : Key) (mode : Mode) (session_index min_version : ℕ) (r : Outcome (Entry × Bool))
    → get z verified looks store key mode session_index min_version ≡ replied r
    → Granted verified looks mode session_index min_version × (r ≡ Engine.get z store key)
unfolding get
get-Granted z true looks store key strong s m r h = (refl, ground arith)
get-Granted z false looks store key strong s m r h = absurd cc
get-Granted z verified looks store key read_your_writes s m r h =
    let (w, q) = after_wait-reached (wait_for_index s looks) (Engine.get z store key) r h in
    (wait_for_index-Applied s looks w, q)
get-Granted z verified looks store key monotonic s m r h =
    let (w, q) = after_wait-reached (wait_for_index m looks) (Engine.get z store key) r h in
    (wait_for_index-Applied m looks w, q)
get-Granted z verified looks store key eventual s m r h = (tt, ground arith)
get-Granted z verified looks store key other_mode s m r h = (tt, ground arith)
