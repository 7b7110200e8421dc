-- ===== src/Broker/Twice.antt =====
-- infra/broker/broker.py, /heal-node after two partitions that part the same two nodes.
use atividade_consenso_raft.Base.{
  ◌-◌, ◌<◌, nat_eq, string_eq, ◌==◌, ◌&&◌, ◌||◌, String, Bool, true, false, some, List, ◌∷◌, map,
  has, ◌≡◌, ◌∙◌, sym, subst, All, arith, Distinct, beq_refl, if◌then◌else◌,
}
use atividade_consenso_raft.Event.{is_text}
use atividade_consenso_raft.Broker.Docker.{Environment, Setup}
use atividade_consenso_raft.Broker.Network.{Network, IsDocker}
use atividade_consenso_raft.Broker.Cuts.{Side, drops, drops-cut_all, up-cut_all}
use atividade_consenso_raft.Broker.Contract.{
  partition_body, node_body, IsReady, hits_all_pos, view-after_partition, heal_node-frees,
}
use atividade_consenso_raft.Broker.{do_post}

-- The partition puts the node `a` on the one side and the address of `b` on the other.
abbrev pub Parts : (String → String) → String → String → List String → List String → Type 0
Parts ip a b isolate majority =
    ((has a isolate && has (ip b) (map ip majority))
      || (has a majority && has (ip b) (map ip isolate)))
    ≡ true

module _ {M : Type 0} (env : Environment M) (view : M → Network) (ip : String → String)
    (d : IsDocker env view ip) (setup : Setup) where
  up-after_partition :
      (isolate majority : List String) (m : M)
      → IsReady ip (view m) isolate
      → IsReady ip (view m) majority
      → (view (do_post env setup "/partition" (some (partition_body isolate majority)) m).1).up
        ≡ (view m).up
  up-after_partition isolate majority m (a, c) (b, e) =
      rw (view-after_partition env view ip d setup isolate majority m a b c e)
        (up-cut_all setup.raft_port ip isolate majority (view m))

  after_partition-lt :
      (isolate majority : List String) (m : M) (side : Side) (a b : String)
      → IsReady ip (view m) isolate
      → IsReady ip (view m) majority
      → Parts ip a b isolate majority
      → drops side setup.raft_port (view m) a (ip b)
        < drops side setup.raft_port
            (view (do_post env setup "/partition" (some (partition_body isolate majority)) m).1)
            a
            (ip b)
  after_partition-lt isolate majority m side a b (x, z) (y, w) parts =
      rw (view-after_partition env view ip d setup isolate majority m x y z w) (
        ground (
          arith,
          drops-cut_all side setup.raft_port ip a (ip b) isolate majority (view m) x y,
          hits_all_pos ip a (ip b) isolate majority ∙ parts,
        ))

  -- Two partitions, one after the other, each of which puts the nodes `a` and `b` on different sides,
  -- and then `/heal-node` for `b`, while all nodes that are named or configured are up and have
  -- addresses, and no node is configured twice: `b` has no rule for the raft port any more, but `a` still
  -- drops what goes to the raft port of `b` and what comes from it.
  pub partition_twice-remains :
      (iso maj iso' maj' : List String) (m : M) (side : Side) (a b p : String)
      → IsReady ip (view m) iso
      → IsReady ip (view m) maj
      → IsReady ip (view m) iso'
      → IsReady ip (view m) maj'
      → IsReady ip (view m) (b ∷ setup.nodes)
      → Distinct setup.nodes
      → is_text (some b) ≡ true
      → (b == a) ≡ false
      → Parts ip a b iso maj
      → Parts ip a b iso' maj'
      → let m1 = (do_post env setup "/partition" (some (partition_body iso maj)) m).1 in
        let m2 = (do_post env setup "/partition" (some (partition_body iso' maj')) m1).1 in
        let m3 = (do_post env setup "/heal-node" (some (node_body b)) m2).1 in
        (drops side setup.raft_port (view m3) b p ≡ 0)
        × (0 < drops side setup.raft_port (view m3) a (ip b))
  partition_twice-remains iso maj iso' maj' m side a b p i j i' j' ready once named other first
        second =
      (
        ground (arith, heals b p, beq_refl b),
        ground (
          arith,
          heals a (ip b),
          after_partition-lt iso maj m side a b i j first,
          after_partition-lt iso' maj' m1 side a b (carry iso' i') (carry maj' j') second,
        ),
      )
    where
      m1 : M
      m1 = (do_post env setup "/partition" (some (partition_body iso maj)) m).1

      m2 : M
      m2 = (do_post env setup "/partition" (some (partition_body iso' maj')) m1).1

      kept : (view m1).up ≡ (view m).up
      kept = up-after_partition iso maj m i j

      carry : (nodes : List String) → IsReady ip (view m) nodes → IsReady ip (view m1) nodes
      carry nodes (up, at) =
          (subst (λ (u : String → Bool). All (λ n. u n ≡ true) nodes) (sym kept) up, at)

      kept' : (view m2).up ≡ (view m1).up
      kept' = up-after_partition iso' maj' m1 (carry iso' i') (carry maj' j')

      heals :
          (k q : String)
          → drops side setup.raft_port
              (view (do_post env setup "/heal-node" (some (node_body b)) m2).1)
              k
              q
            ≡ (if b == k
                then 0
                else if has k setup.nodes && ip b == q
                then drops side setup.raft_port (view m2) k q - 1
                else drops side setup.raft_port (view m2) k q)
      heals k q =
          (heal_node-frees env view ip d setup b m2 side k q named ready.1.0
            (subst (λ (u : String → Bool). All (λ n. u n ≡ true) setup.nodes) (sym (kept' ∙ kept))
              ready.0.1)
            once).1
