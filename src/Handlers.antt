-- ===== src/Handlers.antt =====
-- infra/dashboard/js/handlers: what each handler does to the page.
pub mod Rpc
pub mod Order
use atividade_consenso_raft.Base.{
  or_default, String, string_eq, ◌==◌, Bool, true, false, not, ◌||◌, none, some, if◌then◌else◌,
}
use atividade_consenso_raft.Event.{Event, is_text, is_positive, or_zero, prop_key}
use atividade_consenso_raft.Store.State.{State, LogEntry}
use atividade_consenso_raft.Store.Nodes.{
  Partial, update_node, set_leader, set_match_index, set_heartbeat_ms,
}
use atividade_consenso_raft.Store.Logs.{append_log}
use atividade_consenso_raft.World.{World, with_state}

-- stateHandler.js
abbrev pub state_partial : Event → Partial
state_partial e = record {
  role = some (some (if is_text e.role then or_default e.role "" else "follower"));
  term = some (or_zero e.term);
  commit_idx = some (or_zero e.commit_idx);
  last_log_idx = some (or_zero e.last_log_idx);
  last_applied = some (or_zero e.last_applied);
}

unfoldable pub on_state : Event → World → World
on_state e w =
    let updated = update_node (prop_key e.node) (state_partial e) w.date_now w.state in
    record w {
      state =
          if is_positive e.heartbeat_ms
          then set_heartbeat_ms (or_zero e.heartbeat_ms) updated
          else updated;
    }

-- roleHandler.js
abbrev pub role_partial : Event → Partial
role_partial e = record {
  role = some e.role;
  term = none;
  commit_idx = none;
  last_log_idx = none;
  last_applied = none;
}

unfoldable pub on_role_change : Event → World → World
on_role_change e w = with_state (update_node (prop_key e.node) (role_partial e) w.date_now) w

unfoldable pub on_leader_change : Event → World → World
on_leader_change e w = if is_text e.to then with_state (set_leader e.to) w else w

unfoldable pub on_peer_change : Event → World → World
on_peer_change e w = w

-- applyHandler.js and logEntryHandler.js
abbrev pub entry_of : Event → Bool → LogEntry
entry_of e committed = record {
  index = e.index;
  term = e.term;
  command = e.command;
  key = e.key;
  value = e.value;
  committed = committed;
}

unfoldable pub on_apply : Event → World → World
on_apply e w = with_state (append_log (prop_key e.node) (entry_of e true) w.date_now) w

unfoldable pub on_log_entry : Event → World → World
on_log_entry e w =
    if not (is_text e.to) || not (is_positive e.index)
    then w
    else with_state (append_log (prop_key e.to) (entry_of e false) w.date_now) w

-- replicationHandler.js
unfoldable pub on_replication : Event → World → World
on_replication e w =
    if not (is_text e.node) || not (is_text e.to)
    then w
    else with_state (set_match_index (prop_key e.node) (prop_key e.to) (or_zero e.index)) w
