-- ===== src/Joint/Heal.antt =====
-- "Curar tudo" on the page, with what the broker makes of it.
use atividade_consenso_raft.Base.{string_eq, String, true, [], has, ◌≡◌, refl}
use atividade_consenso_raft.Store.Isolation.{clear_declared_partitions}
use atividade_consenso_raft.World.{heal_all}
use atividade_consenso_raft.Controls.{click_heal_all, answer, answered}
use atividade_consenso_raft.Broker.Docker.{Environment, Setup}
use atividade_consenso_raft.Broker.Network.{Network, IsDocker}
use atividade_consenso_raft.Broker.Cuts.{Side, drops}
use atividade_consenso_raft.Broker.Contract.{heal-clears}
use atividade_consenso_raft.Broker.{empty_body}
use atividade_consenso_raft.Joint.{System, serve, exchange}
use atividade_consenso_raft.Joint.Partition.{exchange-ask}

module _ {M : Type 0} (env : Environment M) (view : M → Network) (ip : String → String)
    (d : IsDocker env view ip) (setup : Setup) where
  -- "Curar tudo", when no request is under way: once the broker has answered, no node is marked or
  -- isolated on the page and no partition is shown, and each configured node is up and has no rule for
  -- the raft port.
  pub heal_all-heals :
      (s : System M) (side : Side) (n p : String)
      → s.page.requests ≡ []
      → has n setup.nodes ≡ true
      → let s' = exchange env setup 0 (record s { page = click_heal_all s.page }) in
        (s'.page.state.pending_isolations ≡ [])
        × (s'.page.state.applied_isolations ≡ [])
        × (s'.page.state.declared_partitions ≡ [])
        × ((view s'.machine).up n ≡ true)
        × (drops side setup.raft_port (view s'.machine) n p ≡ 0)
  unfolding serve answer answered clear_declared_partitions
  heal_all-heals s side n p none_asked listed =
      rw (exchange-ask env view ip d setup heal_all s none_asked) (
        let (fine, up, free) = heal-clears env view ip d setup empty_body s.machine side n p in
        rw none_asked (refl, refl, refl, rw (up, listed) refl, rw (free, listed) refl))
