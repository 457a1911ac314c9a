-- ===== src/Watch/Delivery.antt =====
-- internal/watch/hub.go: which events a subscriber gets.
use on_cloud_kv.Prelude.{
  ℕ, ◌==◌, ==_iff, ◌≡◌, ◌↔◌, ◌≤◌, refl, sym, ap, ◌∙◌, true, some, List, [], ◌∷◌, ◌++◌, ltb, length,
  take, take-append, take_all, ◌-◌, ◌>>=◌, append_assoc, append-nil, length-append, if◌then◌else◌,
  arith, Bool-cases, inl, inr, ltb→lt,
}
use on_cloud_kv.Keys.{Key}
use on_cloud_kv.Watch.{
  Event, Subscription, Hub, channel_size, lookup, has_prefix, offer, offer_all, notify,
}

pub has_prefix_iff :
    (key prefix : Key) → (has_prefix key prefix ≡ true) ↔ ((rest : Key) × (key ≡ prefix ++ rest))
unfolding has_prefix
has_prefix_iff key prefix = (to key prefix, back key prefix)
  where
    to : (key prefix : Key) → has_prefix key prefix ≡ true → (rest : Key) × (key ≡ prefix ++ rest)
    to key [] h = (key, refl)
    to [] (p ∷ prefix) h = cc
    to (k ∷ key) (p ∷ prefix) h =
        let (rest, q) = to key prefix (ground arith) in
        let same : k ≡ p = ground (arith, ==_iff k p) in (rest, cc)

    back : (key prefix : Key) → (rest : Key) × (key ≡ prefix ++ rest) → has_prefix key prefix ≡ true
    back key [] (rest, q) = refl
    back [] (p ∷ prefix) (rest, q) = cc
    back (k ∷ key) (p ∷ prefix) (rest, q) =
        let same : k ≡ p = cc in
        let tail : key ≡ prefix ++ rest = cc in
        rw ((==_iff k p).1 same, back key prefix (rest, tail))

lookup-offer_all :
    (e : Event) (id : ℕ) (subs : List (ℕ × Subscription))
    → lookup id (offer_all e subs) ≡ (lookup id subs >>= λ s. some (offer e s))
unfolding lookup offer_all
lookup-offer_all e id [] = refl
lookup-offer_all e id ((i, s) ∷ subs) = elim (Bool-cases (i == id)) [
  | inl same ↦ rw same
  | inr other ↦ rw other (lookup-offer_all e id subs)
]

-- The events of a list that a prefix matches.
abbrev pub matching : Key → List Event → List Event
matching prefix [] = []
matching prefix (e ∷ es) =
    let rest = matching prefix es in if has_prefix e.key prefix then e ∷ rest else rest

abbrev pub notify_all : Hub → List Event → Hub
notify_all h [] = h
notify_all h (e ∷ es) = notify_all (notify h e) es

offer_one :
    (e : Event) (s : Subscription) (es : List Event)
    → length s.ch ≤ channel_size
    → (length (offer e s).ch ≤ channel_size)
      × ((offer e s).prefix ≡ s.prefix)
      × (take channel_size ((offer e s).ch ++ matching s.prefix es)
          ≡ take channel_size (s.ch ++ matching s.prefix (e ∷ es)))
unfolding offer
offer_one e s es h = elim (Bool-cases (has_prefix e.key s.prefix)) [
  | inr other ↦ rw other (h, refl, refl)
  | inl match ↦ rw match (elim (Bool-cases (ltb (length s.ch) channel_size)) [
    | inl room ↦ rw room (
      omega (arith, length-append s.ch (e ∷ []), ltb→lt (length s.ch) channel_size room),
      refl,
      ap (take channel_size) (append_assoc s.ch (e ∷ []) (matching s.prefix es)),
    )
    | inr full ↦ rw full (
      h,
      refl,
      let none_left : channel_size - length s.ch ≡ 0 = ground arith in
          rw (
            take-append channel_size s.ch (matching s.prefix es) h,
            take-append channel_size s.ch (e ∷ matching s.prefix es) h,
            none_left,
          ),
    )
  ])
]

-- However many events are notified, and whatever other subscribers there are, a subscriber that
-- reads none of them has in its channel, in order and after what was waiting there, the events
-- whose keys its prefix matches, up to the 64 that the channel holds; the later ones are dropped.
pub notify_all-lookup :
    (h : Hub) (es : List Event) (id : ℕ) (s : Subscription)
    → lookup id h.subs ≡ some s
    → length s.ch ≤ channel_size
    → lookup id (notify_all h es).subs
      ≡ some (record { prefix = s.prefix; ch = take channel_size (s.ch ++ matching s.prefix es) })
unfolding notify
notify_all-lookup h [] id s there bound =
    let full : take channel_size (s.ch ++ []) ≡ s.ch =
      rw append-nil (take_all channel_size s.ch bound) in
    there ∙ ap (λ c. some (record { prefix = s.prefix; ch = c })) (sym full)
notify_all-lookup h (e ∷ es) id s there bound =
    let (small, same, more) = offer_one e s es bound in
    notify_all-lookup (notify h e) es id (offer e s) (lookup-offer_all e id h.subs ∙ rw there) small
    ∙ ap
        (λ p.
          some (record { prefix = p; ch = take channel_size ((offer e s).ch ++ matching p es) }))
        same
    ∙ ap (λ c. some (record { prefix = s.prefix; ch = c })) more
