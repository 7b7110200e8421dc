-- ===== src/Page/Invariant.antt =====
-- What every task of the page keeps, whatever the order in which tasks come.
use atividade_consenso_raft.Base.{
  ℕ, String, string_eq, Bool, true, Option, some, none, List, [], ◌∷◌, ◌≡◌, refl, inl, inr,
  Bool-cases, Option-cases, has,
}
use atividade_consenso_raft.Config.{heartbeat_ms_fallback}
use atividade_consenso_raft.Event.{Event}
use atividade_consenso_raft.Store.State.{State, create_store}
use atividade_consenso_raft.Store.Links.{tick_silence}
use atividade_consenso_raft.Store.Isolation.{
  set_declared_partitions, clear_declared_partitions, toggle_pending_isolation, commit_pending,
  release_applied,
}
use atividade_consenso_raft.Store.Invariant.{IsValid, remove_packet-IsValid}
use atividade_consenso_raft.Store.Invariant.Isolation.{
  set_declared_partitions-IsValid, clear_declared_partitions-IsValid,
  toggle_pending_isolation-IsValid, commit_pending-IsValid, release_applied-IsValid,
}
use atividade_consenso_raft.Store.Invariant.Start.{create_store-IsValid}
use atividade_consenso_raft.World.{
  World, Request, kill_leader, heal_all, kill_node, release_node, heal_node, partition, fire,
}
use atividade_consenso_raft.Main.{deliver}
use atividade_consenso_raft.Sse.{
  SnapshotEntry, snapshot_event, deliver_entries, fetch_snapshot, with_node, on_message,
}
use atividade_consenso_raft.Controls.Words.{put_random}
use atividade_consenso_raft.Controls.{
  ask_partition, click_apply, click_isolate, answered, answer, lose, pull, ask,
}
use atividade_consenso_raft.Page.Packets.{fire-IsTimed}
use atividade_consenso_raft.Page.{
  Task, pass, message, snapshot, timeout, tick, press_apply, press_heal_all, press_kill_leader,
  press_isolate, press_kill, press_heal, press_put, answers, loses, is_due, act, run, start,
}
use atividade_consenso_raft.Page.Handling.{PageIsValid, deliver-PageIsValid}

deliver_entries-PageIsValid :
    (id : String) (entries : List SnapshotEntry) (w : World)
    → PageIsValid w
    → PageIsValid (deliver_entries id entries w)
unfolding deliver_entries
deliver_entries-PageIsValid id [] w v = v
deliver_entries-PageIsValid id (e ∷ entries) w v =
    deliver_entries-PageIsValid id entries (deliver (snapshot_event id e) w)
      (deliver-PageIsValid (snapshot_event id e) w v)

fetch_snapshot-PageIsValid :
    (id : String) (body : Option (List SnapshotEntry)) (w : World)
    → PageIsValid w
    → PageIsValid (fetch_snapshot id body w)
unfolding fetch_snapshot
fetch_snapshot-PageIsValid id none w v = v
fetch_snapshot-PageIsValid id (some entries) w v = deliver_entries-PageIsValid id entries w v

on_message-PageIsValid :
    (id : String) (parsed : Option Event) (w : World)
    → PageIsValid w
    → PageIsValid (on_message id parsed w)
unfolding on_message
on_message-PageIsValid id none w v = v
on_message-PageIsValid id (some evt) w v = deliver-PageIsValid (with_node id evt) w v

ask-PageIsValid : (r : Request) (w : World) → PageIsValid w → PageIsValid (ask r w)
ask-PageIsValid r w v = record { store = v.store; timers = v.timers }

ask_partition-PageIsValid :
    (isolate majority : List String) (w : World)
    → PageIsValid w
    → PageIsValid (ask_partition isolate majority w)
unfolding ask_partition
ask_partition-PageIsValid [] majority w v = v
ask_partition-PageIsValid (x ∷ isolate) [] w v = v
ask_partition-PageIsValid (x ∷ isolate) (y ∷ majority) w v = ask-PageIsValid _ w v

click_isolate-PageIsValid :
    (id : String) (w : World) → PageIsValid w → PageIsValid (click_isolate id w)
unfolding click_isolate toggle_pending_isolation
click_isolate-PageIsValid id w v = elim (Bool-cases (has id w.state.applied_isolations)) [
  | inl h ↦ rw h (ask-PageIsValid (release_node id) w v)
  | inr h ↦
      rw h (record {
        store = toggle_pending_isolation-IsValid id w.state h v.store;
        timers = v.timers;
      })
]

answered-IsValid : (r : Request) (ok : Bool) (s : State) → IsValid s → IsValid (answered r ok s)
unfolding answered
answered-IsValid heal_all ok s v = clear_declared_partitions-IsValid s v
answered-IsValid (partition isolate majority) true s v =
    commit_pending-IsValid (set_declared_partitions (isolate ∷ majority ∷ []) s)
      (set_declared_partitions-IsValid (isolate ∷ majority ∷ []) s v)
answered-IsValid (release_node id) true s v = release_applied-IsValid id s v
answered-IsValid _ _ s v = v

answered-packets : (r : Request) (ok : Bool) (s : State) → (answered r ok s).packets ≡ s.packets
unfolding answered commit_pending release_applied clear_declared_partitions set_declared_partitions
answered-packets heal_all ok s = refl
answered-packets (partition isolate majority) true s = refl
answered-packets (release_node id) true s = refl
answered-packets _ _ s = refl

answer-PageIsValid : (i : ℕ) (ok : Bool) (w : World) → PageIsValid w → PageIsValid (answer i ok w)
unfolding answer
answer-PageIsValid i ok w v = elim (Option-cases (pull i w.requests)) [
  | inl e ↦ rw (e, answer) v
  | inr ((r, rs), e) ↦
      rw (e, answer)
        (record {
          store = answered-IsValid r ok w.state v.store;
          timers = rw (answered-packets r ok w.state) v.timers;
        })
]

lose-PageIsValid : (i : ℕ) (w : World) → PageIsValid w → PageIsValid (lose i w)
unfolding lose
lose-PageIsValid i w v = elim (Option-cases (pull i w.requests)) [
  | inl e ↦ rw (e, lose) v
  | inr ((r, rs), e) ↦ rw (e, lose) (record { store = v.store; timers = v.timers })
]

timeout-PageIsValid : (id : ℕ) (w : World) → PageIsValid w → PageIsValid (act w (timeout id))
unfolding act
timeout-PageIsValid id w v = elim (Bool-cases (is_due id w.perf_now w.timers)) [
  | inl h ↦ rw h fired
  | inr h ↦ rw h v
]
  where
    fired : PageIsValid (fire id w)
    fired = record { store = fire-IsValid; timers = fire-IsTimed id w v.timers }
      where
        fire-IsValid : IsValid (fire id w).state
        fire-IsValid = unfold fire in remove_packet-IsValid id w.state v.store

-- Every task keeps the page valid.
pub act-PageIsValid : (w : World) (t : Task) → PageIsValid w → PageIsValid (act w t)
unfolding act tick_silence click_apply
act-PageIsValid w (pass ms perf) v = record { store = v.store; timers = v.timers }
act-PageIsValid w (message id parsed) v = on_message-PageIsValid id parsed w v
act-PageIsValid w (snapshot id body) v = fetch_snapshot-PageIsValid id body w v
act-PageIsValid w (timeout id) v = timeout-PageIsValid id w v
act-PageIsValid w tick v = record { store = v.store; timers = v.timers }
act-PageIsValid w press_apply v = ask_partition-PageIsValid _ _ w v
act-PageIsValid w press_heal_all v = ask-PageIsValid heal_all w v
act-PageIsValid w press_kill_leader v = ask-PageIsValid kill_leader w v
act-PageIsValid w (press_isolate id) v = click_isolate-PageIsValid id w v
act-PageIsValid w (press_kill id) v = ask-PageIsValid (kill_node id) w v
act-PageIsValid w (press_heal id) v = ask-PageIsValid (heal_node id) w v
act-PageIsValid w (press_put key value) v = unfold put_random in ask-PageIsValid _ w v
act-PageIsValid w (answers i ok) v = answer-PageIsValid i ok w v
act-PageIsValid w (loses i) v = lose-PageIsValid i w v

pub run-PageIsValid : (ts : List Task) (w : World) → PageIsValid w → PageIsValid (run w ts)
unfolding run
run-PageIsValid [] w v = v
run-PageIsValid (t ∷ ts) w v = run-PageIsValid ts (act w t) (act-PageIsValid w t v)

start-PageIsValid : (ids : List String) (date perf : ℕ) → PageIsValid (start ids date perf)
unfolding start create_store
start-PageIsValid ids date perf = record {
  store = create_store-IsValid ids heartbeat_ms_fallback date;
  timers = record { timed = refl; counted = tt; once = tt };
}

-- After any tasks in any order, from the start of the page: no log is longer than the window or
-- has an index twice, the greatest term covers every node's, no node is both marked and isolated
-- or in either list twice, and each packet in flight has its own timer.
pub run_start-PageIsValid :
    (ids : List String) (date perf : ℕ) (ts : List Task)
    → PageIsValid (run (start ids date perf) ts)
run_start-PageIsValid ids date perf ts =
    run-PageIsValid ts (start ids date perf) (start-PageIsValid ids date perf)
