-- ===== src/Page.antt =====
-- The page as the browser's event loop runs it: one task after another, in any order.
pub mod Partition
pub mod Packets
pub mod Handling
pub mod Invariant
pub mod Terms
pub mod Drain
pub mod Silence
pub mod Runs
pub mod Frame
pub mod Known
pub mod Errors
use atividade_consenso_raft.Base.{
  ℕ, suc, ◌+◌, nat_eq, ◌==◌, ◌&&◌, ◌||◌, String, Bool, false, Option, List, [], ◌∷◌, leb,
  if◌then◌else◌,
}
use atividade_consenso_raft.Event.{Event}
use atividade_consenso_raft.Store.State.{create_store}
use atividade_consenso_raft.Store.Links.{tick_silence}
use atividade_consenso_raft.Config.{heartbeat_ms_fallback}
use atividade_consenso_raft.World.{World, boot, Timer, with_state, fire}
use atividade_consenso_raft.Sse.{SnapshotEntry, on_message, fetch_snapshot}
use atividade_consenso_raft.Controls.{
  click_apply, click_isolate, click_kill_leader, click_heal_all, click_kill, click_heal, answer,
  lose,
}
use atividade_consenso_raft.Controls.Words.{put_random}

pub data Task : Type 0 where
  -- time goes on, on `Date.now()` and on `performance.now()`
  pass : ℕ → ℕ → Task
  -- a message or the fetched log of a node
  message : String → Option Event → Task
  snapshot : String → Option (List SnapshotEntry) → Task
  -- the timer of a packet; the interval of main.js
  timeout : ℕ → Task
  tick : Task
  -- the buttons
  press_apply press_heal_all press_kill_leader : Task
  press_isolate press_kill press_heal : String → Task
  -- with the two draws of a random number
  press_put : ℕ → ℕ → Task
  -- a request is answered, or lost
  answers : ℕ → Bool → Task
  loses : ℕ → Task

-- Has the timer of this packet run out?
unfoldable pub is_due : ℕ → ℕ → List Timer → Bool
is_due id now [] = false
is_due id now (t ∷ ts) = (t.packet == id && leb t.due now) || is_due id now ts

unfoldable pub act : World → Task → World
unfolding is_due
act w (pass ms perf) = record w { date_now = w.date_now + ms; perf_now = w.perf_now + perf }
act w (message id parsed) = on_message id parsed w
act w (snapshot id body) = fetch_snapshot id body w
act w (timeout id) = if is_due id w.perf_now w.timers then fire id w else w
act w tick = with_state (tick_silence w.date_now) w
act w press_apply = click_apply w
act w press_heal_all = click_heal_all w
act w press_kill_leader = click_kill_leader w
act w (press_isolate id) = click_isolate id w
act w (press_kill id) = click_kill id w
act w (press_heal id) = click_heal id w
act w (press_put random_key random_value) = put_random random_key random_value w
act w (answers i ok) = answer i ok w
act w (loses i) = lose i w

unfoldable pub run : World → List Task → World
run w [] = w
run w (t ∷ ts) = run (act w t) ts

-- The page of main.js, at a reading of the two clocks.
unfoldable pub start : List String → ℕ → ℕ → World
start node_ids date_now perf_now =
    boot (create_store node_ids heartbeat_ms_fallback date_now) date_now perf_now
