-- ===== src/Broker/Contract.antt =====
-- infra/broker/broker.py: what the requests to cut the network and to heal it leave of the rules in the
-- nodes' containers.
use atividade_consenso_raft.Base.{
  ◌-◌, nat_eq, string_eq, ◌==◌, ◌&&◌, ◌||◌, String, true, some, List, [], ◌∷◌, map, has, ltb, ◌≡◌,
  refl, All, arith, Distinct, trim_end, if◌then◌else◌,
}
use atividade_consenso_raft.Event.{is_text}
use atividade_consenso_raft.Broker.Docker.{Environment, Setup}
use atividade_consenso_raft.Broker.Network.{Network, IsDocker, IsAddress}
use atividade_consenso_raft.Broker.Cuts.{
  Side, drops, hits_from, hits_all, cut_all, Up, drops-cut_all,
}
use atividade_consenso_raft.Broker.Refines.{view-separate_all}
use atividade_consenso_raft.Broker.Heals.{
  cleared, cleared_all, freed_all, drops-cleared_all, drops-cleared, drops-freed_all, view-heal,
  view-heal_node,
}
use atividade_consenso_raft.Broker.{Body, empty_body, do_post, partition, heal}

module _ (ip : String → String) (k p : String) where
  hits_from_pos :
      (iso : String) (majority : List String)
      → ltb 0 (hits_from ip iso majority k p)
        ≡ ((iso == k && has p (map ip majority)) || (has k majority && ip iso == p))
  unfolding has
  hits_from_pos iso [] = ground arith
  hits_from_pos iso (maj ∷ majority) = ground (arith, hits_from_pos iso majority)

  -- A node gets rules against an address exactly if one of them is on the one side and the other
  -- on the other.
  pub hits_all_pos :
      (isolate majority : List String)
      → ltb 0 (hits_all ip isolate majority k p)
        ≡ ((has k isolate && has p (map ip majority)) || (has k majority && has p (map ip isolate)))
  unfolding has
  hits_all_pos [] majority = ground arith
  hits_all_pos (iso ∷ isolate) majority =
      ground (arith, hits_all_pos isolate majority, hits_from_pos iso majority)

up-cleared_all :
    (k : String) (nodes : List String) (net : Network)
    → (cleared_all nodes net).up k ≡ (has k nodes || net.up k)
unfolding has
up-cleared_all k [] net = refl
up-cleared_all k (node ∷ nodes) net = ground (arith, up-cleared_all k nodes (cleared node net))

Up-cleared :
    (node : String) (nodes : List String) (net : Network)
    → Up net nodes
    → Up (cleared node net) nodes
Up-cleared node [] net h = tt
Up-cleared node (n ∷ nodes) net h = (ground (arith, h.0), Up-cleared node nodes net h.1)

-- All are up, and have an address.
abbrev pub IsReady : (String → String) → Network → List String → Type 0
IsReady ip net nodes = Up net nodes × All (λ n. IsAddress (ip n)) nodes

abbrev pub partition_body : List String → List String → Body
partition_body isolate majority = record empty_body {
  isolate = some isolate;
  majority = some majority;
}

abbrev pub node_body : String → Body
node_body node = record empty_body { node = some node }

module _ {M : Type 0} (env : Environment M) (view : M → Network) (ip : String → String)
    (d : IsDocker env view ip) (setup : Setup) where
  pub view-after_partition :
      (isolate majority : List String) (m : M)
      → Up (view m) isolate
      → Up (view m) majority
      → All (λ n. IsAddress (ip n)) isolate
      → All (λ n. IsAddress (ip n)) majority
      → view (do_post env setup "/partition" (some (partition_body isolate majority)) m).1
        ≡ cut_all setup.raft_port ip isolate majority (view m)
  unfolding do_post partition trim_end
  view-after_partition isolate majority m a b c e =
      view-separate_all env view ip d setup isolate majority ([], m) a b c e

  -- The broker is asked for a partition of nodes that are all up and have addresses. It answers 200,
  -- and then a node drops what goes to the raft port of an address, and what comes from it, exactly if
  -- it did so before, or if the node is on one side and the address is that of a node on the other.
  pub partition-cuts :
      (isolate majority : List String) (m : M) (side : Side) (k p : String)
      → Up (view m) isolate
      → Up (view m) majority
      → All (λ n. IsAddress (ip n)) isolate
      → All (λ n. IsAddress (ip n)) majority
      → let (r, m') = do_post env setup "/partition" (some (partition_body isolate majority)) m in
        (r.status ≡ 200)
        × (ltb 0 (drops side setup.raft_port (view m') k p) ≡ (
            ltb 0 (drops side setup.raft_port (view m) k p)
            || (has k isolate && has p (map ip majority))
            || (has k majority && has p (map ip isolate))))
  partition-cuts isolate majority m side k p a b c e = (
    unfold do_post partition trim_end in refl,
    rw (view-after_partition isolate majority m a b c e) (
        ground (
          arith,
          drops-cut_all side setup.raft_port ip k p isolate majority (view m) a b,
          hits_all_pos ip k p isolate majority,
        )),
  )

  view-after_heal :
      (body : Body) (m : M)
      → view (do_post env setup "/heal" (some body) m).1 ≡ cleared_all setup.nodes (view m)
  unfolding do_post trim_end
  view-after_heal body m = view-heal env view ip d setup m

  -- `/heal` is answered with 200, whatever its body says, and then each node of the configuration is up
  -- and none has a rule for the raft port; nothing changes for others.
  pub heal-clears :
      (body : Body) (m : M) (side : Side) (k p : String)
      → let (r, m') = do_post env setup "/heal" (some body) m in
        (r.status ≡ 200)
        × ((view m').up k ≡ (has k setup.nodes || (view m).up k))
        × (drops side setup.raft_port (view m') k p
            ≡ (if has k setup.nodes then 0 else drops side setup.raft_port (view m) k p))
  heal-clears body m side k p = (
    unfold do_post trim_end heal in refl,
    rw (view-after_heal body m) (up-cleared_all k setup.nodes (view m)),
    rw (view-after_heal body m) (drops-cleared_all side setup.raft_port k p setup.nodes (view m)),
  )

  view-after_heal_node :
      (node : String) (m : M)
      → is_text (some node) ≡ true
      → IsAddress (ip node)
      → view (do_post env setup "/heal-node" (some (node_body node)) m).1
        ≡ freed_all setup.raft_port node (ip node) setup.nodes (cleared node (view m))
  unfolding do_post trim_end
  view-after_heal_node node m named at = rw named (view-heal_node env view ip d setup node m at)

  -- `/heal-node` for a node, while all nodes of the configuration are up and none is listed twice:
  -- the answer is 200, the node has no rule for the raft port any more, and each other node of the
  -- configuration has one copy less of each rule against the node's address, and else the rules it had.
  pub heal_node-frees :
      (node : String) (m : M) (side : Side) (k p : String)
      → is_text (some node) ≡ true
      → IsAddress (ip node)
      → Up (view m) setup.nodes
      → Distinct setup.nodes
      → let (r, m') = do_post env setup "/heal-node" (some (node_body node)) m in
        (r.status ≡ 200)
        × (drops side setup.raft_port (view m') k p ≡ (
            if node == k
            then 0
            else if has k setup.nodes && ip node == p
            then drops side setup.raft_port (view m) k p - 1
            else drops side setup.raft_port (view m) k p))
  heal_node-frees node m side k p named at up once = (
    unfold do_post trim_end in rw named refl,
    rw (view-after_heal_node node m named at) (
        ground (
          arith,
          drops-freed_all side setup.raft_port k p node (ip node) setup.nodes
              (cleared node (view m)) once (Up-cleared node setup.nodes (view m) up),
          drops-cleared side setup.raft_port k p node (view m),
          string_eq.test_iff node k,
          string_eq.test_iff k node,
        )),
  )
