-- ===== src/Watch.antt =====
-- internal/watch/hub.go: the hub that fans out key changes.
-- The map of subscriptions is an association list with one place for an id. A channel is its buffer; the
-- hub's lock makes each operation one step.
pub mod Delivery
use on_cloud_kv.Prelude.{
  ℕ, ◌+◌, ◌%◌, ◌^◌, ◌==◌, Bool, true, false, ◌&&◌, Option, none, some, List, [], ◌∷◌, ◌++◌, map,
  ltb, length, if◌then◌else◌,
}
use on_cloud_kv.Bytes.{Bytes}
use on_cloud_kv.Keys.{Key}

pub data EventType : Type 0 where
  event_put event_delete : EventType

pub record Event : Type 0 where
  pub type : EventType
  pub key : Key
  pub value : Bytes
  pub version : ℕ

-- A subscription with the events that wait in its channel.
pub record Subscription : Type 0 where
  pub prefix : Key
  pub ch : List Event

pub record Hub : Type 0 where
  pub subs : List (ℕ × Subscription)
  pub next : ℕ

abbrev pub channel_size : ℕ
channel_size = 64

-- `NewHub`
unfoldable pub new_hub : Hub
new_hub = record { subs = []; next = 0 }

unfoldable pub lookup : ℕ → List (ℕ × Subscription) → Option Subscription
lookup id [] = none
lookup id ((i, s) ∷ subs) = let rest = lookup id subs in if i == id then some s else rest

unfoldable pub remove : ℕ → List (ℕ × Subscription) → List (ℕ × Subscription)
remove id [] = []
remove id ((i, s) ∷ subs) = let rest = remove id subs in if i == id then rest else (i, s) ∷ rest

-- `Subscribe`: the id is a uint64.
unfoldable pub subscribe : Hub → Key → Hub × ℕ
subscribe h prefix = (
  record {
    subs = (h.next, record { prefix = prefix; ch = [] }) ∷ remove h.next h.subs;
    next = (h.next + 1) % 2 ^ 64;
  },
  h.next,
)

-- `Unsubscribe`: an id that is not known changes nothing. The channel that it closes leaves the hub with
-- its subscription.
unfoldable pub unsubscribe : Hub → ℕ → Hub
unsubscribe h id = record h { subs = remove id h.subs }

-- strings.HasPrefix
unfoldable pub has_prefix : Key → Key → Bool
has_prefix key [] = true
has_prefix [] (p ∷ prefix) = false
has_prefix (k ∷ key) (p ∷ prefix) = let rest = has_prefix key prefix in (k == p) && rest

-- The `select` of `Notify`: an event for a full channel is dropped.
unfoldable pub offer : Event → Subscription → Subscription
offer e s =
    if has_prefix e.key s.prefix
    then if ltb (length s.ch) channel_size then record s { ch = s.ch ++ e ∷ [] } else s
    else s

unfoldable pub offer_all : Event → List (ℕ × Subscription) → List (ℕ × Subscription)
offer_all e [] = []
offer_all e ((i, s) ∷ subs) = (i, offer e s) ∷ offer_all e subs

-- `Notify`
unfoldable pub notify : Hub → Event → Hub
notify h e = record h { subs = offer_all e h.subs }
