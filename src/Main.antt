-- ===== src/Main.antt =====
-- infra/dashboard/js/main.js: the handlers registered on the bus, and the page that they act on.
pub mod Routing
pub mod Names
pub mod Whole
use atividade_consenso_raft.Base.{ℕ, String, List, []}
use atividade_consenso_raft.Bus.{Handler, Bus, Outcome, returned, create_bus, on, dispatch}
use atividade_consenso_raft.Event.{Event}
use atividade_consenso_raft.World.{World}
use atividade_consenso_raft.Handlers.{
  on_state, on_role_change, on_leader_change, on_peer_change, on_apply, on_log_entry,
  on_replication,
}
use atividade_consenso_raft.Handlers.Rpc.{on_rpc_send, on_rpc_resp, on_rpc_recv}

-- No handler of the program throws.
abbrev pub handler : ℕ → (Event → World → World) → Handler Event World
handler id f = record { id = id; run = λ e w. (f e w, returned) }

abbrev register_state : Bus World → Bus World
register_state bus = on "state" (handler 0 on_state) bus

abbrev register_role : Bus World → Bus World
register_role bus = on "peer_change" (handler 3 on_peer_change) (
    on "leader_change" (handler 2 on_leader_change)
      (on "role_change" (handler 1 on_role_change) bus))

abbrev register_rpc : Bus World → Bus World
register_rpc bus =
    on "rpc_recv" (handler 6 on_rpc_recv)
      (on "rpc_resp" (handler 5 on_rpc_resp) (on "rpc_send" (handler 4 on_rpc_send) bus))

abbrev register_apply : Bus World → Bus World
register_apply bus = on "apply" (handler 7 on_apply) bus

abbrev register_replication : Bus World → Bus World
register_replication bus = on "replication" (handler 8 on_replication) bus

abbrev register_log_entry : Bus World → Bus World
register_log_entry bus = on "log_entry" (handler 9 on_log_entry) bus

-- In the order of main.js.
unfoldable pub wired : Bus World
unfolding create_bus on
wired = register_log_entry (
    register_replication
      (register_apply (register_rpc (register_role (register_state create_bus)))))

unfoldable pub deliver : Event → World → World
unfolding wired dispatch
deliver e w = (dispatch wired e w).0
