-- ===== src/Views/Filters/Laws.antt =====
-- What the composed filters keep.
use atividade_consenso_raft.Base.{
  string_eq, nat_eq, option_eq, ◌==◌, Bool, not, ◌&&◌, ◌||◌, some, ◌≡◌, arith,
}
use atividade_consenso_raft.Event.{Event, or_zero}
use atividade_consenso_raft.Views.Filters.{
  hide_heartbeats, hide_state_snapshots, hide_replication, compose_filters,
}
use atividade_consenso_raft.Views.Stream.{Toggles, compute_active}

-- An AppendEntries, or the answer to one, that says of no entries.
abbrev pub is_heartbeat : Event → Bool
is_heartbeat e =
    (e.type == "rpc_send" && e.rpc == some "AppendEntries"
      || e.type == "rpc_resp" && e.rpc == some "AppendEntriesResp")
    && or_zero e.entries == 0

hide_heartbeats-eq : (e : Event) → hide_heartbeats e ≡ not (is_heartbeat e)
unfolding hide_heartbeats
hide_heartbeats-eq e = ground arith

-- For each setting of the three boxes, an event is kept exactly if no checked box hides its kind:
-- heartbeats and their answers, state, or replication.
pub compose_filters-compute_active :
    (cb : Toggles) (e : Event)
    → compose_filters (compute_active cb) e ≡ (
        not (cb.heartbeats && is_heartbeat e)
        && (not (cb.state_snapshots && e.type == "state")
            && not (cb.replication && e.type == "replication")))
unfolding compute_active compose_filters hide_state_snapshots hide_replication
compose_filters-compute_active cb e = ground (arith, hide_heartbeats-eq e)
