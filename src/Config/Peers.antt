-- ===== src/Config/Peers.antt =====
-- internal/config/config.go: the peers of a configuration.
use Prim.Native.String.{String}
use on_cloud_kv.Prelude.{◌≡◌, Option, none, some, List, [], ◌∷◌, ◌++◌, ◌⊎◌}
use on_cloud_kv.Config.{
  PeerConfig, Field, text, other_field, Item, table, other_item, asserted, peers_loop,
}

-- A field that is missing or is not a string.
pub data IsNoText : Option Field → Type 0 where
  missing : IsNoText none
  not_text : IsNoText (some other_field)

abbrev AssertedCases : Option Field → Type 0
AssertedCases o =
    ((s : String) × (o ≡ some (text s)) × (asserted o ≡ some s))
    ⊎ (IsNoText o × (asserted o ≡ none))

-- The peers that the elements of the list name: a map names one by two strings, another element none.
pub data PeersOf : List Item → List PeerConfig → Type 0 where
  no_more : PeersOf [] []
  named :
      {pm : String → Option Field} {id addr : String} {rest : List Item} {ps : List PeerConfig}
      → pm "id" ≡ some (text id)
      → pm "addr" ≡ some (text addr)
      → PeersOf rest ps
      → PeersOf (table pm ∷ rest) (record { id = id; addr = addr } ∷ ps)
  skipped :
      {rest : List Item} {ps : List PeerConfig} → PeersOf rest ps → PeersOf (other_item ∷ rest) ps

-- Some map of the list has no string for one of the two.
pub data Unnamed : List Item → Type 0 where
  no_id :
      {pm : String → Option Field} {rest : List Item}
      → IsNoText (pm "id")
      → Unnamed (table pm ∷ rest)
  no_addr :
      {pm : String → Option Field} {rest : List Item}
      → IsNoText (pm "addr")
      → Unnamed (table pm ∷ rest)
  later : {p : Item} {rest : List Item} → Unnamed rest → Unnamed (p ∷ rest)

abbrev Read : List PeerConfig → List Item → Type 0
Read peers ps =
    ((named_ : List PeerConfig) × PeersOf ps named_
      × (peers_loop ps (some peers) ≡ some (peers ++ named_)))
    ⊎ (Unnamed ps × (peers_loop ps (some peers) ≡ none))
