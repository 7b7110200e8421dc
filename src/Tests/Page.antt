-- ===== src/Tests/Page.antt =====
-- The theorems on the whole page at concrete inputs.
use atividade_consenso_raft.Base.{
  String, string_eq, true, false, some, List, [], ◌∷◌, ◌≡◌, ◌↔◌, ◌<◌, ◌+◌, ◌*◌, refl, has, get?,
  str_ltb, join_bar,
}
use atividade_consenso_raft.Store.State.{Link, link_key}
use atividade_consenso_raft.Store.Links.Silence.{link_of}
use atividade_consenso_raft.Store.Isolation.Spec.{Shows}
use atividade_consenso_raft.World.{World}
use atividade_consenso_raft.Handlers.{on_apply, on_log_entry}
use atividade_consenso_raft.Handlers.Order.{on_apply-on_log_entry}
use atividade_consenso_raft.Page.{
  Task, pass, message, timeout, tick, press_apply, press_isolate, answers, act, run, start,
}
use atividade_consenso_raft.Page.Handling.{PageIsValid}
use atividade_consenso_raft.Page.Invariant.{run_start-PageIsValid}
use atividade_consenso_raft.Page.Silence.{tick_after_quiet}
use atividade_consenso_raft.Page.Drain.{latest, run_start-drains, timeouts}
use atividade_consenso_raft.Page.Partition.{apply-Shows, second_apply-misleads}
use atividade_consenso_raft.Tests.Data.{
  two_entries-LogIsValid, log_event, three_nodes, page_of, node1_page, state_event, append_event,
  resp_event, apply_event,
}

abbrev some_tasks : List Task
some_tasks =
    message "node1" (some state_event)
    ∷ message "node1" (some append_event)
    ∷ message "node2" (some resp_event)
    ∷ message "node1" (some apply_event)
    ∷ pass 3000 300000
    ∷ timeout 1
    ∷ press_isolate "node3"
    ∷ press_apply
    ∷ answers 0 true
    ∷ tick
    ∷ []

run_start-PageIsValid_example : PageIsValid (run (start three_nodes 0 0) some_tasks)
run_start-PageIsValid_example = run_start-PageIsValid three_nodes 0 0 some_tasks

-- A second of silence, in which only others speak.
abbrev quiet_tasks : List Task
quiet_tasks = message "node1" (some append_event) ∷ pass 9000 900000 ∷ tick ∷ pass 3000 0 ∷ []

tick_after_quiet_example :
    let w' = run node1_page quiet_tasks in
    (l : Link) × (link_of "node1" "node2" (act w' tick).state ≡ some l)
    × ((l.down ≡ true) ↔ (1000 + 2 * w'.state.heartbeat_ms < w'.date_now))
unfolding get? link_key str_ltb join_bar
tick_after_quiet_example =
    tick_after_quiet "node1" "node2" node1_page quiet_tasks
      (record { last_resp = 1000; down = false }) refl (refl, (tt, (tt, (tt, tt))))

run_start-drains_example :
    let w = run (start three_nodes 0 0) some_tasks in
    let w' = run w (pass 0 (latest w.timers) ∷ timeouts w.timers) in
    (w'.state.packets ≡ []) × (w'.timers ≡ [])
run_start-drains_example = run_start-drains three_nodes 0 0 some_tasks

abbrev one_marked : World
one_marked = page_of ("node3" ∷ []) [] [] []

apply-Shows_example :
    let s = (run one_marked (press_apply ∷ answers 0 true ∷ [])).state in
    Shows s.node_ids s.applied_isolations s.declared_partitions
    × (s.pending_isolations ≡ [])
    × ((n : String) → has n s.applied_isolations ≡ has n one_marked.state.pending_isolations)
unfolding has
apply-Shows_example = apply-Shows one_marked "node3" "node1" [] ("node2" ∷ []) refl refl refl refl

-- Node 3 is isolated already, and node 2 is marked.
abbrev one_isolated : World
one_isolated =
    page_of ("node2" ∷ []) ("node3" ∷ []) (("node3" ∷ []) ∷ ("node1" ∷ "node2" ∷ []) ∷ []) []

second_apply-misleads_example :
    let s = (run one_isolated (press_apply ∷ answers 0 true ∷ [])).state in
    (has "node3" s.applied_isolations ≡ true)
    × (¬ Shows s.node_ids s.applied_isolations s.declared_partitions)
unfolding has
second_apply-misleads_example =
    second_apply-misleads one_isolated "node2" "node1" [] ("node3" ∷ []) "node3" refl refl refl refl
      refl

on_apply-on_log_entry_example :
    on_log_entry log_event (on_apply apply_event node1_page)
    ≡ on_apply apply_event (on_log_entry log_event node1_page)
on_apply-on_log_entry_example =
    on_apply-on_log_entry apply_event log_event node1_page refl refl refl refl
      two_entries-LogIsValid
