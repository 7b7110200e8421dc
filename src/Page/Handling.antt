-- ===== src/Page/Handling.antt =====
-- What every handler of an event keeps.
use atividade_consenso_raft.Base.{
  ℕ, String, string_eq, option_eq, Bool, true, false, not, ◌||◌, some, none, ◌≡◌, refl, inl, inr,
  arith, Bool-cases, ◌==◌,
}
use atividade_consenso_raft.Event.{Event, is_text, is_positive, or_zero, prop_key}
use atividade_consenso_raft.Store.State.{State}
use atividade_consenso_raft.Store.Nodes.{
  Partial, update_node, set_leader, set_match_index, set_heartbeat_ms,
}
use atividade_consenso_raft.Store.Logs.{append_log}
use atividade_consenso_raft.Store.Invariant.{
  IsValid, update_node-IsValid, set_match_index-IsValid, set_heartbeat_ms-IsValid,
  mark_resp_seen-IsValid, append_log-IsValid, record_packet-IsValid,
}
use atividade_consenso_raft.World.{World, with_state}
use atividade_consenso_raft.Handlers.{
  on_state, on_role_change, on_leader_change, on_apply, on_log_entry, on_replication, state_partial,
  role_partial, entry_of,
}
use atividade_consenso_raft.Handlers.Rpc.{on_rpc_send, on_rpc_resp, launch, packet_of}
use atividade_consenso_raft.Main.{deliver}
use atividade_consenso_raft.Main.Routing.{deliver_cases}
use atividade_consenso_raft.Page.Packets.{IsTimed, on_rpc_send-IsTimed, on_rpc_resp-IsTimed}

pub record PageIsValid (w : World) : Type 0 where
  pub store : IsValid w.state
  pub timers : IsTimed w

-- An operation of the store that leaves the packets alone.
pub with_state-PageIsValid :
    (f : State → State) (w : World)
    → ((s : State) → IsValid s → IsValid (f s))
    → (f w.state).packets ≡ w.state.packets
    → PageIsValid w
    → PageIsValid (with_state f w)
with_state-PageIsValid f w keeps same v = record {
  store = keeps w.state v.store;
  timers = rw same v.timers;
}

update_node-packets :
    (id : String) (p : Partial) (now : ℕ) (s : State) → (update_node id p now s).packets ≡ s.packets
unfolding update_node
update_node-packets id p now s = ground arith

set_heartbeat_ms-packets : (ms : ℕ) (s : State) → (set_heartbeat_ms ms s).packets ≡ s.packets
unfolding set_heartbeat_ms
set_heartbeat_ms-packets ms s = ground arith

set_match_index-packets :
    (leader peer : String) (index : ℕ) (s : State)
    → (set_match_index leader peer index s).packets ≡ s.packets
unfolding set_match_index
set_match_index-packets leader peer index s = ground arith

pub on_state-PageIsValid : (e : Event) (w : World) → PageIsValid w → PageIsValid (on_state e w)
unfolding on_state
on_state-PageIsValid e w v = elim (Bool-cases (is_positive e.heartbeat_ms)) [
  | inl h ↦ rw h (
      with_state-PageIsValid (set_heartbeat_ms (or_zero e.heartbeat_ms)) updated
        (set_heartbeat_ms-IsValid (or_zero e.heartbeat_ms))
        (set_heartbeat_ms-packets (or_zero e.heartbeat_ms) updated.state) valid)
  | inr h ↦ rw h valid
]
  where
    updated : World
    updated = with_state (update_node (prop_key e.node) (state_partial e) w.date_now) w

    valid : PageIsValid updated
    valid =
        with_state-PageIsValid (update_node (prop_key e.node) (state_partial e) w.date_now) w
          (update_node-IsValid (prop_key e.node) (state_partial e) w.date_now)
          (update_node-packets (prop_key e.node) (state_partial e) w.date_now w.state) v

pub on_role_change-PageIsValid :
    (e : Event) (w : World) → PageIsValid w → PageIsValid (on_role_change e w)
unfolding on_role_change
on_role_change-PageIsValid e w v =
    with_state-PageIsValid (update_node (prop_key e.node) (role_partial e) w.date_now) w
      (update_node-IsValid (prop_key e.node) (role_partial e) w.date_now)
      (update_node-packets (prop_key e.node) (role_partial e) w.date_now w.state) v

pub on_leader_change-PageIsValid :
    (e : Event) (w : World) → PageIsValid w → PageIsValid (on_leader_change e w)
unfolding on_leader_change set_leader
on_leader_change-PageIsValid e w v = elim (Bool-cases (is_text e.to)) [
  | inl h ↦ rw (h, set_leader) (record { store = v.store; timers = v.timers })
  | inr h ↦ rw h v
]

append-PageIsValid :
    (id : String) (e : Event) (b : Bool) (w : World)
    → PageIsValid w
    → PageIsValid (with_state (append_log id (entry_of e b) w.date_now) w)
unfolding append_log
append-PageIsValid id e b w v =
    with_state-PageIsValid (append_log id (entry_of e b) w.date_now) w
      (append_log-IsValid id (entry_of e b) w.date_now) refl v

pub on_apply-PageIsValid : (e : Event) (w : World) → PageIsValid w → PageIsValid (on_apply e w)
unfolding on_apply
on_apply-PageIsValid e w v = append-PageIsValid (prop_key e.node) e true w v

pub on_log_entry-PageIsValid :
    (e : Event) (w : World) → PageIsValid w → PageIsValid (on_log_entry e w)
unfolding on_log_entry
on_log_entry-PageIsValid e w v =
    elim (Bool-cases (not (is_text e.to) || not (is_positive e.index))) [
      | inl h ↦ rw h v
      | inr h ↦ rw h (append-PageIsValid (prop_key e.to) e false w v)
    ]

pub on_replication-PageIsValid :
    (e : Event) (w : World) → PageIsValid w → PageIsValid (on_replication e w)
unfolding on_replication
on_replication-PageIsValid e w v = elim (Bool-cases (not (is_text e.node) || not (is_text e.to))) [
  | inl h ↦ rw h v
  | inr h ↦ rw h (
      with_state-PageIsValid (set_match_index (prop_key e.node) (prop_key e.to) (or_zero e.index)) w
        (set_match_index-IsValid (prop_key e.node) (prop_key e.to) (or_zero e.index))
        (set_match_index-packets (prop_key e.node) (prop_key e.to) (or_zero e.index) w.state) v)
]

pub on_rpc_send-PageIsValid :
    (e : Event) (w : World) → PageIsValid w → PageIsValid (on_rpc_send e w)
unfolding on_rpc_send launch
on_rpc_send-PageIsValid e w v = record {
  store = elim (Bool-cases (not (is_text e.from) || not (is_text e.to))) [
    | inl h ↦ rw (h, on_rpc_send) v.store
    | inr h ↦ rw (h, on_rpc_send) (record_packet-IsValid (packet_of e none none w) w.state v.store)
  ];
  timers = on_rpc_send-IsTimed e w v.timers;
}

pub on_rpc_resp-PageIsValid :
    (e : Event) (w : World) → PageIsValid w → PageIsValid (on_rpc_resp e w)
unfolding on_rpc_resp launch
on_rpc_resp-PageIsValid e w v = record { store = kept; timers = on_rpc_resp-IsTimed e w v.timers }
  where
    launched : IsValid (launch (packet_of e e.success e.granted w) w).state
    launched = record_packet-IsValid (packet_of e e.success e.granted w) w.state v.store

    kept : IsValid (on_rpc_resp e w).state
    kept = elim (Bool-cases (not (is_text e.from) || not (is_text e.to))) [
      | inl h ↦ rw (h, on_rpc_resp) v.store
      | inr h ↦
          rw (h, on_rpc_resp)
            (elim (Bool-cases (e.rpc == some "AppendEntriesResp")) [
              | inl r ↦
                  rw r
                    (mark_resp_seen-IsValid (prop_key e.from) (prop_key e.to) w.date_now _ launched)
              | inr r ↦ rw r launched
            ])
    ]

-- Every event keeps the page valid.
pub deliver-PageIsValid : (e : Event) (w : World) → PageIsValid w → PageIsValid (deliver e w)
deliver-PageIsValid e w v =
    deliver_cases PageIsValid e w v (on_state-PageIsValid e w v) (on_role_change-PageIsValid e w v)
      (on_leader_change-PageIsValid e w v) (on_rpc_send-PageIsValid e w v)
      (on_rpc_resp-PageIsValid e w v) (on_apply-PageIsValid e w v)
      (on_replication-PageIsValid e w v) (on_log_entry-PageIsValid e w v)
