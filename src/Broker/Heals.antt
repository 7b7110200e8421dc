-- ===== src/Broker/Heals.antt =====
-- infra/broker/broker.py, /heal and /heal-node: the rules that they take away.
use atividade_consenso_raft.Base.{
  ◌-◌, nat_eq, string_eq, list_eq, ◌==◌, ◌&&◌, not, String, true, false, List, [], ◌∷◌, Map, insert,
  has, ◌≡◌, refl, ap, ◌∙◌, sym, subst, inl, inr, All, arith, Bool-cases, beq_refl, Distinct,
  if◌then◌else◌,
}
use atividade_consenso_raft.Broker.Docker.{
  Environment, Setup, output_rule, input_rule, node_ip, partition_clear, carry_out, iptables,
}
use atividade_consenso_raft.Broker.Network.{Network, IsDocker, IsAddress, deleted, flushed, started}
use atividade_consenso_raft.Broker.Cuts.{Side, outgoing, incoming, drops}
use atividade_consenso_raft.Broker.Refines.{node_ip_up, view-node_ip}
use atividade_consenso_raft.Broker.{release_all, heal_node, heal_all, heal}

abbrev pub cleared : String → Network → Network
cleared node net = flushed node "OUTPUT" (flushed node "INPUT" (started node net))

abbrev pub cleared_all : List String → Network → Network
cleared_all [] net = net
cleared_all (node ∷ nodes) net = cleared_all nodes (cleared node net)

-- One copy of each rule against an address.
abbrev pub freed : String → String → String → Network → Network
freed port ip other net =
    deleted other (input_rule port ip) (deleted other (output_rule port ip) net)

abbrev pub freed_all : String → String → String → List String → Network → Network
freed_all port node ip [] net = net
freed_all port node ip (other ∷ others) net =
    freed_all port node ip others (if other == node then net else freed port ip other net)

up-cleared : (node : String) (net : Network) → (cleared node net).up node ≡ true
up-cleared node net = ground (arith, beq_refl node)

module _ {M : Type 0} (env : Environment M) (view : M → Network) (ip : String → String)
    (d : IsDocker env view ip) (setup : Setup) where
  view-clear :
      (node : String) (m : M)
      → view (partition_clear env node (carry_out env ("start" ∷ node ∷ []) m))
        ≡ cleared node (view m)
  unfolding partition_clear
  view-clear node m =
      d.flushes node "OUTPUT" _
      ∙ ap (flushed node "OUTPUT")
          (d.flushes node "INPUT" _ ∙ ap (flushed node "INPUT") (d.starts node m))

  view-heal_all :
      (nodes : List String) (done : Map String String) (m : M)
      → view (heal_all env setup nodes done m).1 ≡ cleared_all nodes (view m)
  unfolding heal_all
  view-heal_all [] done m = refl
  view-heal_all (node ∷ nodes) done m =
      view-heal_all nodes (insert node "healed" done) _ ∙ ap (cleared_all nodes) (view-clear node m)

  pub view-heal : (m : M) → view (heal env setup m).1 ≡ cleared_all setup.nodes (view m)
  unfolding heal
  view-heal m = view-heal_all setup.nodes [] m

  view-freed :
      (other node_ip : String) (m : M)
      → view (
          carry_out env
            (iptables other "-D" (input_rule setup.raft_port node_ip))
            (carry_out env (iptables other "-D" (output_rule setup.raft_port node_ip)) m))
        ≡ freed setup.raft_port node_ip other (view m)
  view-freed other node_ip m =
      d.deletes other (input_rule setup.raft_port node_ip) _
      ∙ ap (deleted other (input_rule setup.raft_port node_ip))
          (d.deletes other (output_rule setup.raft_port node_ip) m)

  view-release_all :
      (node a : String) (others : List String) (m : M)
      → (a == "") ≡ false
      → view (release_all env setup node a others m)
        ≡ freed_all setup.raft_port node a others (view m)
  unfolding release_all
  view-release_all node a [] m full = refl
  view-release_all node a (other ∷ others) m full = elim (Bool-cases (other == node)) [
    | inl self ↦ rw self (view-release_all node a others m full)
    | inr another ↦
        rw (another, full)
          (view-release_all node a others _ full
            ∙ ap (freed_all setup.raft_port node a others) (view-freed other a m))
  ]

  -- `/heal-node` starts the node, empties its tables, and then frees it on the others.
  pub view-heal_node :
      (node : String) (m : M)
      → IsAddress (ip node)
      → view (heal_node env setup node m)
        ≡ freed_all setup.raft_port node (ip node) setup.nodes (cleared node (view m))
  unfolding heal_node
  view-heal_node node m at =
      let cleaned = view-clear node m in
      rw
        (node_ip_up env view ip d node _
          (subst (λ v. v.up node ≡ true) (sym cleaned) (up-cleared node (view m))) at)
        (view-release_all node (ip node) setup.nodes _ at.1
          ∙ ap (freed_all setup.raft_port node (ip node) setup.nodes)
              (view-node_ip env view ip d node _ ∙ cleaned))

module _ (side : Side) (port : String) (k p : String) where
  pub drops-cleared :
      (node : String) (net : Network)
      → drops side port (cleared node net) k p ≡ (if node == k then 0 else drops side port net k p)
  drops-cleared node net = by_side side
    where
      by_side :
          (s : Side)
          → drops s port (cleared node net) k p ≡ (if node == k then 0 else drops s port net k p)
      by_side outgoing = ground (arith, beq_refl node)
      by_side incoming = ground (arith, beq_refl node)

  -- No rule is left in the tables of the nodes that are healed; the others keep theirs.
  pub drops-cleared_all :
      (nodes : List String) (net : Network)
      → drops side port (cleared_all nodes net) k p
        ≡ (if has k nodes then 0 else drops side port net k p)
  unfolding has
  drops-cleared_all [] net = refl
  drops-cleared_all (node ∷ nodes) net =
      ground (arith, drops-cleared_all nodes (cleared node net), drops-cleared node net)

  drops-freed :
      (a other : String) (net : Network)
      → net.up other ≡ true
      → drops side port (freed port a other net) k p
        ≡ (if other == k && a == p then drops side port net k p - 1 else drops side port net k p)
  drops-freed a other net up = by_side side
    where
      by_side :
          (s : Side)
          → drops s port (freed port a other net) k p
            ≡ (if other == k && a == p then drops s port net k p - 1 else drops s port net k p)
      by_side outgoing = ground (arith, up, string_eq.test_iff port port)
      by_side incoming = ground (arith, up, string_eq.test_iff port port)

  -- Each other node that is listed once loses one copy of the rule against the address.
  pub drops-freed_all :
      (node a : String) (others : List String) (net : Network)
      → Distinct others
      → All (λ n. net.up n ≡ true) others
      → drops side port (freed_all port node a others net) k p ≡ (
          if has k others && not (k == node) && a == p
          then drops side port net k p - 1
          else drops side port net k p)
  unfolding has
  drops-freed_all node a [] net once up = refl
  drops-freed_all node a (other ∷ others) net once up = elim (Bool-cases (other == node)) [
    | inl self ↦ rw self (
        ground (
          arith,
          drops-freed_all node a others net once.1 up.1,
          string_eq.test_iff other node,
          string_eq.test_iff other k,
          string_eq.test_iff k node,
        ))
    | inr another ↦ rw another (
        ground (
          arith,
          drops-freed_all node a others (freed port a other net) once.1 up.1,
          drops-freed a other net up.0,
          once.0,
          string_eq.test_iff other k,
          string_eq.test_iff other node,
          string_eq.test_iff k node,
        ))
  ]
