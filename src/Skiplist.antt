-- ===== src/Skiplist.antt =====
-- internal/storage/skiplist/skiplist.go: the memtable.
-- The nodes live in a heap of numbered addresses, the head at address 0. A `forward` slice is the
-- function of its level, `height` its length less one. Locks are not modelled: each operation is one
-- atomic step. `rolls` are the outcomes of `rand.Float64() < probability`, draw by draw.
pub mod Links
pub mod Search
pub mod Invariant
pub mod Agree
pub mod Overwrite
pub mod Splice
pub mod Place
pub mod Linked
pub mod Insert
pub mod Refine
pub mod Tombstone
pub mod Range
use on_cloud_kv.Prelude.{
  ℕ, zero, suc, ◌+◌, ◌-◌, Bool, true, false, ◌&&◌, ◌||◌, not, Option, none, some, List, [], ◌∷◌,
  ◌++◌, ltb, leb, ◌==◌, length, if◌then◌else◌,
}
use on_cloud_kv.Bytes.{Bytes}
use on_cloud_kv.Keys.{Key, key_ltb, key_eqb}
use on_cloud_kv.Entry.{Entry, empty_entry}

abbrev pub max_level : ℕ
max_level = 32

pub record Node : Type 0 where
  pub entry : Entry
  pub height : ℕ
  pub forward : ℕ → Option ℕ

abbrev pub Heap : Type 0
Heap = ℕ → Node

-- `next_node` is the first address that is not in use.
pub record Skiplist : Type 0 where
  pub node : Heap
  pub next_node : ℕ
  pub level : ℕ
  pub size : ℕ
  pub mem_size : ℕ

abbrev pub head : ℕ
head = 0

abbrev pub new_node : ℕ → Entry → Node
new_node level e = record { entry = e; height = level; forward = λ i. none }

-- `New`
unfoldable pub new : Skiplist
new = record {
  node = λ a. new_node max_level empty_entry;
  next_node = 1;
  level = 0;
  size = 0;
  mem_size = 0;
}

random_loop : ℕ → List Bool → ℕ
random_loop lvl [] = lvl
random_loop lvl (roll ∷ rolls) =
    if ltb lvl max_level && roll then random_loop (suc lvl) rolls else lvl

-- `randomLevel`; where the draws run out the next one counts as failed.
unfoldable pub random_level : List Bool → ℕ
unfolding random_loop
random_level rolls = random_loop 0 rolls

-- `for cur.forward[i] != nil && cur.forward[i].entry.Key < key { cur = cur.forward[i] }`, with fuel.
unfoldable pub walk : Heap → Key → ℕ → ℕ → ℕ → ℕ
walk h key i zero cur = cur
walk h key i (suc fuel) cur = elim ((h cur).forward i) [
  | none ↦ cur
  | some nx ↦ elim (key_ltb (h nx).entry.key key) [ true ↦ walk h key i fuel nx | false ↦ cur ]
]

-- The descent from level i to level 0.
unfoldable pub search : Heap → ℕ → Key → ℕ → ℕ → ℕ
search h fuel key zero cur = walk h key 0 fuel cur
search h fuel key (suc i) cur = search h fuel key i (walk h key (suc i) fuel cur)

-- The node that every operation looks at: the first one whose key is not below `key`, if it is `key`.
unfoldable pub match_node : Heap → Key → Option ℕ → Option ℕ
match_node h key none = none
match_node h key (some n) = if key_eqb (h n).entry.key key then some n else none

-- `findNode`
unfoldable pub find_node : Skiplist → Key → Option ℕ
find_node s key =
    let cur = search s.node s.next_node key s.level head in
    match_node s.node key ((s.node cur).forward 0)

unfoldable pub entry_at : Heap → Option ℕ → Option Entry
entry_at h none = none
entry_at h (some n) = some (h n).entry

-- `Get`
unfoldable pub get : Skiplist → Key → Option Entry
get s key = entry_at s.node (find_node s key)

-- The `update` array: nil until a level is visited.
abbrev pub Update : Type 0
Update = ℕ → Option ℕ

abbrev pub set_update : Update → ℕ → ℕ → Update
set_update update i p = λ j. if j == i then some p else update j

-- The descent of `Put`, which also fills `update`.
unfoldable pub search_update : Heap → ℕ → Key → ℕ → ℕ → Update → ℕ × Update
search_update h fuel key zero cur update =
    let cur' = walk h key 0 fuel cur in (cur', set_update update 0 cur')
search_update h fuel key (suc i) cur update =
    let cur' = walk h key (suc i) fuel cur in
    search_update h fuel key i cur' (set_update update (suc i) cur')

-- `for i := s.level + 1; i <= lvl; i++ { update[i] = s.head }`, by the rounds left
unfoldable pub fill_update : ℕ → ℕ → Update → Update
fill_update zero i update = update
fill_update (suc rounds) i update = fill_update rounds (suc i) (set_update update i head)

abbrev pub set_node : Heap → ℕ → Node → Heap
set_node h p n = λ a. if a == p then n else h a

unfoldable pub set_forward : Heap → ℕ → ℕ → Option ℕ → Heap
set_forward h p i v =
    set_node h p (record (h p) { forward = λ j. if j == i then v else (h p).forward j })

unfoldable pub set_entry : Heap → ℕ → Entry → Heap
set_entry h p e = set_node h p (record (h p) { entry = e })

-- `n.forward[i] = update[i].forward[i]; update[i].forward[i] = n`; a nil `update[i]` would panic.
unfoldable pub splice_at : Heap → ℕ → ℕ → Option ℕ → Heap
splice_at h n i none = h
splice_at h n i (some p) = set_forward (set_forward h n i ((h p).forward i)) p i (some n)

-- `for i := 0; i <= lvl; i++`, by the rounds left
unfoldable pub splice : ℕ → ℕ → Heap → ℕ → Update → Heap
splice zero i h n update = h
splice (suc rounds) i h n update = splice rounds (suc i) (splice_at h n i (update i)) n update

-- The second half of `Put`: a new node of the drawn level between its neighbours.
unfoldable pub insert_node : Skiplist → Update → ℕ → Entry → Skiplist
insert_node s update lvl e =
    let update' =
      if ltb s.level lvl then fill_update (lvl - s.level) (suc s.level) update else update in
    let n = s.next_node in
    record {
      node = splice (suc lvl) 0 (set_node s.node n (new_node lvl e)) n update';
      next_node = suc n;
      level = if ltb s.level lvl then lvl else s.level;
      size = s.size + 1;
      mem_size = s.mem_size + (length e.key + length e.value + 24);
    }

-- `Put` behind its descent: the node of the key is overwritten, or a new one is put in.
unfoldable pub put_at : Skiplist → Update → ℕ → Entry → Option ℕ → Skiplist
put_at s update lvl e (some n) = record s {
  node =
      set_entry s.node n
        (record (s.node n).entry { value = e.value; version = e.version; deleted = false });
}
put_at s update lvl e none = insert_node s update lvl e

-- `Put`
unfoldable pub put : Skiplist → List Bool → Key → Bytes → ℕ → Skiplist
put s rolls key value version =
    let (cur, update) = search_update s.node s.next_node key s.level head (λ i. none) in
    put_at s update (random_level rolls)
      (record { key = key; value = value; version = version; deleted = false })
      (match_node s.node key ((s.node cur).forward 0))

-- `x.entry.Deleted = true` on the node that a search found; on nil it would panic.
unfoldable pub mark_deleted : Skiplist → Option ℕ → Skiplist
mark_deleted s none = s
mark_deleted s (some n) = record s {
  node = set_entry s.node n (record (s.node n).entry { deleted = true });
}

unfoldable pub delete_at : Skiplist → List Bool → Key → ℕ → Option ℕ → Skiplist
delete_at s rolls key version (some n) = record s {
  node = set_entry s.node n (record (s.node n).entry { version = version; deleted = true });
}
delete_at s rolls key version none =
    let s' = put s rolls key [] version in mark_deleted s' (find_node s' key)

-- `Delete`: a tombstone in place of the entry, or a new one.
unfoldable pub delete : Skiplist → List Bool → Key → ℕ → Skiplist
delete s rolls key version = delete_at s rolls key version (find_node s key)

-- `end != "" && cur.entry.Key >= end`
unfoldable pub past_end : Key → Key → Bool
past_end end key = not (key_eqb end []) && not (key_ltb key end)

-- The collecting loop of `Scan`, with fuel; a limit of 0 (or below) is none.
unfoldable pub scan_loop : Heap → Key → ℕ → ℕ → List Entry → Option ℕ → List Entry
scan_loop h end limit zero results cur = results
scan_loop h end limit (suc fuel) results none = results
scan_loop h end limit (suc fuel) results (some n) =
    elim (past_end end (h n).entry.key || (ltb 0 limit && leb limit (length results))) [
      | true ↦ results
      | false ↦ scan_loop h end limit fuel (results ++ (h n).entry ∷ []) ((h n).forward 0)
    ]

-- `Scan`
unfoldable pub scan : Skiplist → Key → Key → ℕ → List Entry
scan s start end limit =
    let cur = search s.node s.next_node start s.level head in
    scan_loop s.node end limit s.next_node [] ((s.node cur).forward 0)

unfoldable pub all_loop : Heap → ℕ → List Entry → Option ℕ → List Entry
all_loop h zero entries cur = entries
all_loop h (suc fuel) entries none = entries
all_loop h (suc fuel) entries (some n) =
    all_loop h fuel (entries ++ (h n).entry ∷ []) ((h n).forward 0)

-- `All`
unfoldable pub all : Skiplist → List Entry
all s = all_loop s.node s.next_node [] ((s.node head).forward 0)
