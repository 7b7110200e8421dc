-- ===== src/Page/Frame.antt =====
-- What the operations of the store keep, the page keeps.
use atividade_consenso_raft.Base.{
  ℕ, String, string_eq, option_eq, nat_eq, Bool, true, false, not, ◌||◌, ◌==◌, Option, some, none,
  List, [], ◌∷◌, has, inl, inr, Bool-cases, Option-cases,
}
use atividade_consenso_raft.Event.{Event, is_text, is_positive, or_zero, prop_key}
use atividade_consenso_raft.Store.State.{State, Packet, LogEntry}
use atividade_consenso_raft.Store.Nodes.{
  Partial, update_node, set_leader, set_match_index, set_heartbeat_ms,
}
use atividade_consenso_raft.Store.Links.{mark_resp_seen, tick_silence}
use atividade_consenso_raft.Store.Logs.{append_log}
use atividade_consenso_raft.Store.Packets.{record_packet, remove_packet}
use atividade_consenso_raft.Store.Isolation.{
  set_declared_partitions, clear_declared_partitions, toggle_pending_isolation, commit_pending,
  release_applied,
}
use atividade_consenso_raft.World.{World, Request, fire, heal_all, partition, release_node}
use atividade_consenso_raft.Handlers.{
  on_state, on_role_change, on_leader_change, on_apply, on_log_entry, on_replication, state_partial,
  role_partial, entry_of,
}
use atividade_consenso_raft.Handlers.Rpc.{on_rpc_send, on_rpc_resp, launch, packet_of}
use atividade_consenso_raft.Main.{deliver}
use atividade_consenso_raft.Main.Routing.{deliver_cases}
use atividade_consenso_raft.Sse.{
  SnapshotEntry, snapshot_event, deliver_entries, fetch_snapshot, with_node, on_message,
}
use atividade_consenso_raft.Controls.Words.{put_random}
use atividade_consenso_raft.Controls.{
  ask_partition, click_apply, click_isolate, answered, answer, lose, pull,
}
use atividade_consenso_raft.Page.{
  Task, pass, message, snapshot, timeout, tick, press_apply, press_isolate, press_put,
  press_heal_all, press_kill_leader, press_kill, press_heal, answers, loses, is_due, act, run,
}

-- A predicate on the store that each of its operations keeps.
pub record IsKept (P : State → Type 0) : Type 0 where
  pub update_node_kept :
      (id : String) (p : Partial) (now : ℕ) (s : State) → P s → P (update_node id p now s)
  pub set_leader_kept : (id : Option String) (s : State) → P s → P (set_leader id s)
  pub set_match_index_kept :
      (leader peer : String) (index : ℕ) (s : State) → P s → P (set_match_index leader peer index s)
  pub set_heartbeat_ms_kept : (ms : ℕ) (s : State) → P s → P (set_heartbeat_ms ms s)
  pub mark_resp_seen_kept : (a b : String) (t : ℕ) (s : State) → P s → P (mark_resp_seen a b t s)
  pub tick_silence_kept : (now : ℕ) (s : State) → P s → P (tick_silence now s)
  pub append_log_kept :
      (id : String) (e : LogEntry) (now : ℕ) (s : State) → P s → P (append_log id e now s)
  pub record_packet_kept : (p : Packet) (s : State) → P s → P (record_packet p s)
  pub remove_packet_kept : (id : ℕ) (s : State) → P s → P (remove_packet id s)
  pub set_declared_kept :
      (gs : List (List String)) (s : State) → P s → P (set_declared_partitions gs s)
  pub clear_declared_kept : (s : State) → P s → P (clear_declared_partitions s)
  pub toggle_pending_kept : (id : String) (s : State) → P s → P (toggle_pending_isolation id s)
  pub commit_pending_kept : (s : State) → P s → P (commit_pending s)
  pub release_applied_kept : (id : String) (s : State) → P s → P (release_applied id s)

module _ {P : State → Type 0} (keeps : IsKept P) where
  abbrev InWorld : World → Type 0
  InWorld w = P w.state

  on_state-kept : (e : Event) (w : World) → P w.state → P (on_state e w).state
  unfolding on_state
  on_state-kept e w v =
      let updated =
        keeps.update_node_kept (prop_key e.node) (state_partial e) w.date_now w.state v in
      elim (Bool-cases (is_positive e.heartbeat_ms)) [
        | inl h ↦ rw (h, on_state) (keeps.set_heartbeat_ms_kept (or_zero e.heartbeat_ms) _ updated)
        | inr h ↦ rw (h, on_state) updated
      ]

  on_rpc_send-kept : (e : Event) (w : World) → P w.state → P (on_rpc_send e w).state
  unfolding on_rpc_send launch
  on_rpc_send-kept e w v = elim (Bool-cases (not (is_text e.from) || not (is_text e.to))) [
    | inl h ↦ rw (h, on_rpc_send) v
    | inr h ↦ rw (h, on_rpc_send) (keeps.record_packet_kept (packet_of e none none w) w.state v)
  ]

  on_rpc_resp-kept : (e : Event) (w : World) → P w.state → P (on_rpc_resp e w).state
  unfolding on_rpc_resp launch
  on_rpc_resp-kept e w v =
      let launched = keeps.record_packet_kept (packet_of e e.success e.granted w) w.state v in
      elim (Bool-cases (not (is_text e.from) || not (is_text e.to))) [
        | inl h ↦ rw (h, on_rpc_resp) v
        | inr h ↦
            rw (h, on_rpc_resp)
              (elim (Bool-cases (e.rpc == some "AppendEntriesResp")) [
                | inl r ↦ rw r (
                    keeps.mark_resp_seen_kept (prop_key e.from) (prop_key e.to) w.date_now _
                      launched)
                | inr r ↦ rw r launched
              ])
      ]

  on_leader_change-kept : (e : Event) (w : World) → P w.state → P (on_leader_change e w).state
  unfolding on_leader_change
  on_leader_change-kept e w v = elim (Bool-cases (is_text e.to)) [
    | inl h ↦ rw (h, on_leader_change) (keeps.set_leader_kept e.to w.state v)
    | inr h ↦ rw (h, on_leader_change) v
  ]

  on_replication-kept : (e : Event) (w : World) → P w.state → P (on_replication e w).state
  unfolding on_replication
  on_replication-kept e w v = elim (Bool-cases (not (is_text e.node) || not (is_text e.to))) [
    | inl h ↦ rw (h, on_replication) v
    | inr h ↦
        rw (h, on_replication)
          (keeps.set_match_index_kept (prop_key e.node) (prop_key e.to) (or_zero e.index) w.state v)
  ]

  on_log_entry-kept : (e : Event) (w : World) → P w.state → P (on_log_entry e w).state
  unfolding on_log_entry
  on_log_entry-kept e w v = elim (Bool-cases (not (is_text e.to) || not (is_positive e.index))) [
    | inl h ↦ rw (h, on_log_entry) v
    | inr h ↦
        rw (h, on_log_entry)
          (keeps.append_log_kept (prop_key e.to) (entry_of e false) w.date_now w.state v)
  ]

  deliver-kept : (e : Event) (w : World) → P w.state → P (deliver e w).state
  unfolding on_role_change on_apply
  deliver-kept e w v =
      deliver_cases InWorld e w v (on_state-kept e w v)
        (keeps.update_node_kept (prop_key e.node) (role_partial e) w.date_now w.state v)
        (on_leader_change-kept e w v) (on_rpc_send-kept e w v) (on_rpc_resp-kept e w v)
        (keeps.append_log_kept (prop_key e.node) (entry_of e true) w.date_now w.state v)
        (on_replication-kept e w v) (on_log_entry-kept e w v)

  entries-kept :
      (id : String) (entries : List SnapshotEntry) (w : World)
      → P w.state
      → P (deliver_entries id entries w).state
  unfolding deliver_entries
  entries-kept id [] w v = v
  entries-kept id (e ∷ entries) w v =
      entries-kept id entries _ (deliver-kept (snapshot_event id e) w v)

  answered-kept : (r : Request) (ok : Bool) (s : State) → P s → P (answered r ok s)
  unfolding answered
  answered-kept heal_all ok s v = keeps.clear_declared_kept s v
  answered-kept (partition isolate majority) true s v =
      keeps.commit_pending_kept _ (keeps.set_declared_kept _ s v)
  answered-kept (release_node id) true s v = keeps.release_applied_kept id s v
  answered-kept _ _ s v = v

  answer-kept : (i : ℕ) (ok : Bool) (w : World) → P w.state → P (answer i ok w).state
  unfolding answer
  answer-kept i ok w v = elim (Option-cases (pull i w.requests)) [
    | inl e ↦ rw (e, answer) v
    | inr ((r, rs), e) ↦ rw (e, answer) (answered-kept r ok w.state v)
  ]

  lose-kept : (i : ℕ) (w : World) → P w.state → P (lose i w).state
  unfolding lose
  lose-kept i w v = elim (Option-cases (pull i w.requests)) [
    | inl e ↦ rw (e, lose) v
    | inr ((r, rs), e) ↦ rw (e, lose) v
  ]

  ask_partition-kept :
      (isolate majority : List String) (w : World)
      → P w.state
      → P (ask_partition isolate majority w).state
  unfolding ask_partition
  ask_partition-kept [] majority w v = v
  ask_partition-kept (x ∷ isolate) [] w v = v
  ask_partition-kept (x ∷ isolate) (y ∷ majority) w v = v

  act-kept : (t : Task) (w : World) → P w.state → P (act w t).state
  unfolding act fire click_apply click_isolate put_random fetch_snapshot on_message
  act-kept (pass ms perf) w v = v
  act-kept (message id none) w v = v
  act-kept (message id (some e)) w v = deliver-kept (with_node id e) w v
  act-kept (snapshot id none) w v = v
  act-kept (snapshot id (some entries)) w v = entries-kept id entries w v
  act-kept (timeout id) w v = elim (Bool-cases (is_due id w.perf_now w.timers)) [
    | inl h ↦ rw (h, act) (keeps.remove_packet_kept id w.state v)
    | inr h ↦ rw (h, act) v
  ]
  act-kept tick w v = keeps.tick_silence_kept _ _ v
  act-kept press_apply w v = ask_partition-kept _ _ w v
  act-kept (press_isolate id) w v = elim (Bool-cases (has id w.state.applied_isolations)) [
    | inl h ↦ rw (h, act, click_isolate) v
    | inr h ↦ rw (h, act, click_isolate) (keeps.toggle_pending_kept id w.state v)
  ]
  act-kept (answers i ok) w v = answer-kept i ok w v
  act-kept (loses i) w v = lose-kept i w v
  act-kept press_heal_all w v = v
  act-kept press_kill_leader w v = v
  act-kept (press_kill id) w v = v
  act-kept (press_heal id) w v = v
  act-kept (press_put key value) w v = v

  -- What every operation of the store keeps holds of the page after any tasks, if it holds before.
  pub run-kept : (ts : List Task) (w : World) → P w.state → P (run w ts).state
  unfolding run
  run-kept [] w v = v
  run-kept (t ∷ ts) w v = run-kept ts (act w t) (act-kept t w v)
