-- ===== src/Joint/Release.antt =====
-- "Liberar" on the card of one of two isolated nodes, with what the broker makes of it.
use atividade_consenso_raft.Base.{
  ◌-◌, nat_eq, string_eq, ◌==◌, ◌&&◌, not, String, true, false, some, [], has, has-delete, ◌≡◌,
  refl, ◌∙◌, arith, Distinct, trim_end, beq_refl, if◌then◌else◌,
}
use atividade_consenso_raft.Store.Isolation.{release_applied}
use atividade_consenso_raft.Store.Isolation.Spec.{Shows, release_applied-Shows}
use atividade_consenso_raft.Event.{is_text}
use atividade_consenso_raft.World.{World, release_node}
use atividade_consenso_raft.Controls.{click_isolate, answer, answered, ask}
use atividade_consenso_raft.Broker.Docker.{Environment, Setup}
use atividade_consenso_raft.Broker.Network.{Network, IsDocker, IsAddress}
use atividade_consenso_raft.Broker.Cuts.{Side, drops, Up}
use atividade_consenso_raft.Broker.Contract.{node_body, heal_node-frees}
use atividade_consenso_raft.Broker.{do_post}
use atividade_consenso_raft.Joint.{System, serve, exchange}
use atividade_consenso_raft.Joint.Partition.{exchange-ask}

module _ {M : Type 0} (env : Environment M) (view : M → Network) (ip : String → String)
    (d : IsDocker env view ip) (setup : Setup) where
  click_isolate-ask :
      (b : String) (w : World)
      → has b w.state.applied_isolations ≡ true
      → click_isolate b w ≡ ask (release_node b) w
  unfolding click_isolate
  click_isolate-ask b w held = rw held refl

  release-exchange :
      (s : System M) (b : String)
      → s.page.requests ≡ []
      → is_text (some b) ≡ true
      → has b s.page.state.applied_isolations ≡ true
      → exchange env setup 0 (record s { page = click_isolate b s.page }) ≡ record {
        page = record s.page { requests = []; state = release_applied b s.page.state };
        machine = (do_post env setup "/heal-node" (some (node_body b)) s.machine).1;
      }
  unfolding serve do_post trim_end answer answered
  release-exchange s b none_asked named held =
      rw (click_isolate-ask b s.page held) (
        exchange-ask env view ip d setup (release_node b) s none_asked
        ∙ rw (named, none_asked) refl)

  -- "Liberar" for the node `b` while `a` is isolated too and neither drops the other's raft traffic (as
  -- it is when the two were isolated together), with no request under way, and all configured nodes up
  -- and listed once: once the broker has answered, the banner shows `a` as cut off from `b`, which is not
  -- isolated any more, and still neither drops the other's traffic.
  pub release-leaves_open :
      (s : System M) (side : Side) (a b : String)
      → s.page.requests ≡ []
      → is_text (some b) ≡ true
      → (b == a) ≡ false
      → has a s.page.state.applied_isolations ≡ true
      → has b s.page.state.applied_isolations ≡ true
      → drops side setup.raft_port (view s.machine) a (ip b) ≡ 0
      → IsAddress (ip b)
      → Up (view s.machine) setup.nodes
      → Distinct setup.nodes
      → let s' = exchange env setup 0 (record s { page = click_isolate b s.page }) in
        let state = s'.page.state in
        Shows state.node_ids state.applied_isolations state.declared_partitions
        × (has a state.applied_isolations ≡ true)
        × (has b state.applied_isolations ≡ false)
        × (drops side setup.raft_port (view s'.machine) a (ip b) ≡ 0)
        × (drops side setup.raft_port (view s'.machine) b (ip a) ≡ 0)
  unfolding release_applied
  release-leaves_open s side a b none_asked named other held_a held_b free at up once =
      rw (release-exchange s b none_asked named held_b) (
        release_applied-Shows b s.page.state,
        released a ∙ ground (arith, other, held_a),
        released b ∙ ground (arith, beq_refl b),
        ground (arith, (frees a (ip b)), free, other),
        ground (arith, (frees b (ip a)), beq_refl b),
      )
    where
      released :
          (n : String)
          → has n (release_applied b s.page.state).applied_isolations
            ≡ (not (b == n) && has n s.page.state.applied_isolations)
      released n = unfold release_applied in has-delete b n s.page.state.applied_isolations

      frees :
          (k p : String)
          → drops side setup.raft_port
              (view (do_post env setup "/heal-node" (some (node_body b)) s.machine).1)
              k
              p
            ≡ (if b == k
                then 0
                else if has k setup.nodes && ip b == p
                then drops side setup.raft_port (view s.machine) k p - 1
                else drops side setup.raft_port (view s.machine) k p)
      frees k p = (heal_node-frees env view ip d setup b s.machine side k p named at up once).1
