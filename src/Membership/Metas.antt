-- ===== src/Membership/Metas.antt =====
-- internal/membership/memberlist.go: which nodes `Members` lists.
use Prim.Native.String.{String}
use on_cloud_kv.Prelude.{◌≡◌, none, some, List, [], ◌∷◌}
use on_cloud_kv.Bytes.{Bytes}
use on_cloud_kv.Membership.{NodeMeta, Gossip, ring_config}

-- What the members of a ring hand out: the metadata of a node that joined by this code, which decodes to
-- itself, or bytes that are no metadata.
pub data Gossiped (gossip : Gossip) : List Bytes → List NodeMeta → Type 0 where
  no_member : Gossiped gossip [] []
  node_member :
      {bs : List Bytes} {ms : List NodeMeta} (meta : NodeMeta) (address : String × String)
      → gossip.unmarshal (gossip.marshal meta) ≡ some meta
      → Gossiped gossip bs ms
      → Gossiped gossip
          ((ring_config gossip meta.node_id (gossip.marshal meta) address).delegate ∷ bs)
          (meta ∷ ms)
  foreign_member :
      {bs : List Bytes} {ms : List NodeMeta} {b : Bytes}
      → gossip.unmarshal b ≡ none
      → Gossiped gossip bs ms
      → Gossiped gossip (b ∷ bs) ms
