-- ===== src/Membership.antt =====
-- internal/membership/memberlist.go: the gossip ring of a node. memberlist, JSON and the splitting of an
-- address are parameters; logging is left out.
pub mod Metas
use Prim.Native.String.{String}
use on_cloud_kv.Prelude.{ℕ, Bool, true, false, Option, none, some, List, [], ◌∷◌, ◌++◌}
use on_cloud_kv.Bytes.{Bytes}
use on_cloud_kv.Node.{Try, fine, fault}

pub record NodeMeta : Type 0 where
  pub node_id : String
  pub raft_addr : String
  pub grpc_addr : String

-- The configuration of memberlist, the fields that the code sets; the delegate is the bytes that it hands
-- out as the metadata of the node.
pub record RingConfig : Type 0 where
  pub name : String
  pub bind_addr : String
  pub bind_port : ℕ
  pub advertise_addr : String
  pub advertise_port : ℕ
  pub delegate : Bytes

pub record Gossip : Type 1 where
  pub Ring : Type 0
  pub Error : Type 0
  pub split_host_port : String → Try Error (String × String)
  pub atoi : String → ℕ
  pub marshal : NodeMeta → Bytes
  pub unmarshal : Bytes → Option NodeMeta
  pub create : RingConfig → Try Error Ring
  pub join_ring : Ring → List String → Ring × Option Error
  -- the metadata of the members
  pub ring_members : Ring → List Bytes
  pub leave_ring : Ring → Ring × Option Error
  pub shutdown_ring : Ring → Ring × Option Error

unfoldable pub add_meta : List NodeMeta → Option NodeMeta → List NodeMeta
add_meta out none = out
add_meta out (some nm) = out ++ nm ∷ []

unfoldable pub members_loop : (Bytes → Option NodeMeta) → List NodeMeta → List Bytes → List NodeMeta
members_loop unmarshal out [] = out
members_loop unmarshal out (m ∷ rest) = members_loop unmarshal (add_meta out (unmarshal m)) rest

-- An invalid address, or a ring that cannot be created.
pub data JoinError (E : Type 0) : Type 0 where
  invalid_gossip_addr : E → JoinError E
  create_failed : E → JoinError E

module _ (gossip : Gossip) where
  open gossip use {
    Ring, Error, split_host_port, atoi, marshal, unmarshal, create, join_ring, ring_members,
    leave_ring, shutdown_ring,
  }

  pub record Cluster : Type 0 where
    pub ring : Ring
    pub meta : NodeMeta

  unfoldable pub ring_config : String → Bytes → String × String → RingConfig
  ring_config node_id delegate (host, port_text) = record {
    name = node_id;
    bind_addr = host;
    bind_port = atoi port_text;
    advertise_addr = host;
    advertise_port = atoi port_text;
    delegate = delegate;
  }

  -- A failed join of the seeds is only logged.
  unfoldable pub join_seeds : Ring → List String → Ring
  join_seeds ring [] = ring
  join_seeds ring (seed ∷ seeds) = (join_ring ring (seed ∷ seeds)).0

  unfoldable pub joined : NodeMeta → List String → Try Error Ring → Try (JoinError Error) Cluster
  joined meta seeds (fault e) = fault (create_failed e)
  joined meta seeds (fine ring) = fine (record { ring = join_seeds ring seeds; meta = meta })

  unfoldable pub join_at :
      NodeMeta → List String → Try Error (String × String) → Try (JoinError Error) Cluster
  join_at meta seeds (fault e) = fault (invalid_gossip_addr e)
  join_at meta seeds (fine address) =
      joined meta seeds (create (ring_config meta.node_id (marshal meta) address))

  -- `Join`
  unfoldable pub join :
      String → String → String → String → List String → Try (JoinError Error) Cluster
  join node_id gossip_addr raft_addr grpc_addr seeds =
      join_at (record { node_id = node_id; raft_addr = raft_addr; grpc_addr = grpc_addr }) seeds
        (split_host_port gossip_addr)

  -- `Members`
  unfoldable pub members : Cluster → List NodeMeta
  members c = members_loop unmarshal [] (ring_members c.ring)

  unfoldable pub left : Cluster → Ring × Option Error → Cluster × Option Error
  left c (ring, some e) = (record c { ring = ring }, some e)
  left c (ring, none) = let (ring1, e) = shutdown_ring ring in (record c { ring = ring1 }, e)

  -- `Leave`
  unfoldable pub leave : Cluster → Cluster × Option Error
  leave c = left c (leave_ring c.ring)
