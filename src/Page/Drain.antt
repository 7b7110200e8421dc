-- ===== src/Page/Drain.antt =====
-- Every packet leaves: once the timers have run out, no packet is left.
use atividade_consenso_raft.Base.{
  max, ◌+◌, String, ℕ, ◌≤◌, nat_eq, true, false, not, List, [], ◌∷◌, ◌≡◌, refl, ap, sym, subst, ◌∙◌,
  All, map, select, arith, ◌==◌, beq_refl, has, Distinct,
}
use atividade_consenso_raft.Store.State.{Packet}
use atividade_consenso_raft.World.{World, Timer, fire}
use atividade_consenso_raft.Page.Invariant.{run_start-PageIsValid}
use atividade_consenso_raft.Page.{pass, start, Task, timeout, is_due, act, run}
use atividade_consenso_raft.Page.Packets.{IsTimed, packet_slot, timer_slot, ids, fire-IsTimed}

-- One `timeout` task for each timer, in the order in which they were set.
abbrev pub timeouts : List Timer → List Task
timeouts = map (λ t. timeout t.packet)

abbrev pub AllDue : ℕ → List Timer → Type 0
AllDue now = All (λ t. t.due ≤ now)

-- Only this timer has the id, so only it is taken away.
select_others :
    (id : ℕ) (ts : List Timer)
    → has id (map (λ t. t.packet) ts) ≡ false
    → select (λ t. not (t.packet == id)) ts ≡ ts
unfolding has
select_others id [] h = refl
select_others id (t ∷ ts) h = ground (arith, select_others id ts)

timer_ids : (w : World) → IsTimed w → ids w.state.packets ≡ map (λ t. t.packet) w.timers
timer_ids w v = ids_of w.state.packets ∙ ap (map (λ q. q.0)) v.timed ∙ sym (packets_of w.timers)
  where
    ids_of : (ps : List Packet) → ids ps ≡ map (λ q. q.0) (map packet_slot ps)
    ids_of [] = refl
    ids_of (p ∷ ps) = ap (p.id ∷◌) (ids_of ps)

    packets_of : (ts : List Timer) → map (λ t. t.packet) ts ≡ map (λ q. q.0) (map timer_slot ts)
    packets_of [] = refl
    packets_of (t ∷ ts) = ap (t.packet ∷◌) (packets_of ts)

no_packets : (w : World) → IsTimed w → w.timers ≡ [] → w.state.packets ≡ []
no_packets w v e = empty w.state.packets (v.timed ∙ ap (map timer_slot) e)
  where
    empty : (ps : List Packet) → map packet_slot ps ≡ [] → ps ≡ []
    empty [] h = refl
    empty (p ∷ ps) h = cc

act-due :
    (w : World) (t : Timer) {ts : List Timer}
    → w.timers ≡ t ∷ ts
    → t.due ≤ w.perf_now
    → act w (timeout t.packet) ≡ fire t.packet w
unfolding act
act-due w t {ts} e d =
    let due : is_due t.packet w.perf_now w.timers ≡ true = rw (e, is_due) (ground arith) in rw due

-- If each packet has its own timer and all timers have run out, the tasks of these timers leave
-- no packet and no timer.
run-timeouts :
    (ts : List Timer) (w : World)
    → w.timers ≡ ts
    → IsTimed w
    → AllDue w.perf_now ts
    → ((run w (timeouts ts)).state.packets ≡ []) × ((run w (timeouts ts)).timers ≡ [])
unfolding run fire
run-timeouts [] w e v d = (no_packets w v e, e)
run-timeouts (t ∷ ts) w e v d =
    subst (λ u. ((run u (timeouts ts)).state.packets ≡ []) × ((run u (timeouts ts)).timers ≡ []))
      (sym (act-due w t e d.0))
      (run-timeouts ts (fire t.packet w) left (fire-IsTimed t.packet w v) d.1)
  where
    alone : has t.packet (map (λ u. u.packet) ts) ≡ false
    alone = (subst Distinct (timer_ids w v ∙ ap (map (λ u. u.packet)) e) v.once).0

    left : (fire t.packet w).timers ≡ ts
    left =
        ap (select (λ u. not (u.packet == t.packet))) e
        ∙ rw (beq_refl t.packet) (select_others t.packet ts alone)

-- The time at which the last timer runs out.
abbrev pub latest : List Timer → ℕ
latest [] = 0
latest (t ∷ ts) = max t.due (latest ts)

latest-AllDue : (now : ℕ) (ts : List Timer) → AllDue (now + latest ts) ts
latest-AllDue now ts = due ts (now + latest ts) (omega arith)
  where
    due : (us : List Timer) (k : ℕ) → latest us ≤ k → AllDue k us
    due [] k h = tt
    due (u ∷ us) k h = (omega arith, due us k (omega arith))

-- From the start of the page, after any tasks in any order: once the time of the last timer has come,
-- the tasks of the timers that are set leave no packet and no timer.
pub run_start-drains :
    (ids : List String) (date perf : ℕ) (ts : List Task)
    → let w = run (start ids date perf) ts in
      let w' = run w (pass 0 (latest w.timers) ∷ timeouts w.timers) in
      (w'.state.packets ≡ []) × (w'.timers ≡ [])
unfolding act run
run_start-drains ids date perf ts =
    let w = run (start ids date perf) ts in
    run-timeouts w.timers
      (record w { date_now = w.date_now + 0; perf_now = w.perf_now + latest w.timers }) refl
      (run_start-PageIsValid ids date perf ts).timers (latest-AllDue w.perf_now w.timers)
