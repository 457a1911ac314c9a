-- ===== src/Node/Start.antt =====
-- internal/consensus/node.go: what the start of a node depends on.
use on_cloud_kv.Prelude.{◌≡◌, refl, false, Option, none, some, List}
use on_cloud_kv.Config.{Config, PeerConfig}
use on_cloud_kv.Node
use on_cloud_kv.Node.{
  Library, Try, fine, fault, Stage, Starting, and_then, ◌>>=◌, bootstrap, new_node, with_batch,
}

-- The configuration with other peers.
abbrev pub with_peers : Config → List PeerConfig → Config
with_peers cfg peers = record cfg { raft = record cfg.raft { peers = peers } }

-- The error that a start ends with.
abbrev pub failure : {E A : Type 0} → Try E A → Option E
failure (fine a) = none
failure (fault e) = some e

module _ (lib : Library) where
  open lib use {World, Error, Machine, Transport, Raft, new_batch_writer}

  -- The same world, and the same error or none.
  pub record Same {A : Type 0} (a b : World × Try (Stage × Error) A) : Type 0 where
    pub world : a.0 ≡ b.0
    pub outcome : failure a.1 ≡ failure b.1

  and_then-Same :
      {A B : Type 0} (a : World × Try (Stage × Error) A) (k l : A → Starting lib B)
      → ((x : A) (w : World) → Same (k x w) (l x w))
      → Same (and_then lib a k) (and_then lib a l)
  unfolding and_then
  and_then-Same (w, fine x) k l same = same x w
  and_then-Same (w, fault e) k l same = record { world = refl; outcome = refl }

  then-Same :
      {A B : Type 0} (m : Starting lib A) (k l : A → Starting lib B) (w : World)
      → ((x : A) (w' : World) → Same (k x w') (l x w'))
      → Same (◌>>=◌ lib m k w) (◌>>=◌ lib m l w)
  unfolding ◌>>=◌
  then-Same m k l w same = and_then-Same (m w) k l same

  bootstrap-Same :
      (cfg : Config) (peers : List PeerConfig) (machine : Machine) (transport : Transport)
      (r : Raft) (w : World)
      → cfg.raft.bootstrap_cluster ≡ false
      → Same
          (◌>>=◌ lib
            (bootstrap lib cfg transport r)
            (λ d w. with_batch lib cfg machine r (new_batch_writer w r))
            w)
          (◌>>=◌ lib
            (bootstrap lib (with_peers cfg peers) transport r)
            (λ d w. with_batch lib (with_peers cfg peers) machine r (new_batch_writer w r))
            w)
  unfolding bootstrap ◌>>=◌ and_then with_batch
  bootstrap-Same cfg peers machine transport r w off =
      rw off (record { world = refl; outcome = refl })

  -- A node that does not bootstrap does the same to the world, and ends with the same error or with none,
  -- whatever peers its configuration names: it joins none of them.
  pub new_node-with_peers :
      (cfg : Config) (peers : List PeerConfig) (machine : Machine) (w : World)
      → cfg.raft.bootstrap_cluster ≡ false
      → Same (new_node lib cfg machine w) (new_node lib (with_peers cfg peers) machine w)
  unfolding new_node Node.settings_of
  new_node-with_peers cfg peers machine w off = then-Same _ _ _ w (λ done w1.
      then-Same _ _ _ w1 (λ bolt w2. then-Same _ _ _ w2 (λ snaps w3. then-Same _ _ _ w3 (λ addr w4.
        then-Same _ _ _ w4 (λ transport w5.
          then-Same _ _ _ w5 (λ r w6. bootstrap-Same cfg peers machine transport r w6 off))))))
