-- ===== src/Page/Terms.antt =====
-- The greatest term that the page has seen, as a clock.
use atividade_consenso_raft.Base.{ℕ, ◌≤◌, List, arith}
use native.Mathlib.Nat.{le_refl}
use atividade_consenso_raft.Store.State.{State}
use atividade_consenso_raft.Store.Nodes.{update_node, set_leader, set_match_index, set_heartbeat_ms}
use atividade_consenso_raft.Store.Links.{tick_silence, mark_resp_seen, mark_key}
use atividade_consenso_raft.Store.Logs.{append_log}
use atividade_consenso_raft.Store.Packets.{record_packet, remove_packet}
use atividade_consenso_raft.Store.Isolation.{
  set_declared_partitions, clear_declared_partitions, toggle_pending_isolation, commit_pending,
  release_applied,
}
use atividade_consenso_raft.World.{World}
use atividade_consenso_raft.Page.{Task, run}
use atividade_consenso_raft.Page.Frame.{IsKept, run-kept}

abbrev pub max_term : World → ℕ
max_term w = w.state.max_term

Reached : ℕ → State → Type 0
Reached t s = t ≤ s.max_term

max_term-IsKept : (t : ℕ) → IsKept (Reached t)
unfolding Reached update_node set_leader set_match_index set_heartbeat_ms mark_resp_seen mark_key
    tick_silence append_log record_packet remove_packet set_declared_partitions
    clear_declared_partitions toggle_pending_isolation commit_pending release_applied
max_term-IsKept t = record {
  update_node_kept = λ id p now s v. ground arith;
  set_leader_kept = λ id s v. v;
  set_match_index_kept = λ leader peer index s v. ground arith;
  set_heartbeat_ms_kept = λ ms s v. ground arith;
  mark_resp_seen_kept = λ a b t' s v. ground arith;
  tick_silence_kept = λ now s v. v;
  append_log_kept = λ id e now s v. v;
  record_packet_kept = λ p s v. v;
  remove_packet_kept = λ id s v. v;
  set_declared_kept = λ gs s v. v;
  clear_declared_kept = λ s v. v;
  toggle_pending_kept = λ id s v. ground arith;
  commit_pending_kept = λ s v. v;
  release_applied_kept = λ id s v. ground arith;
}

-- No task, in whatever order tasks come, takes the greatest term back.
pub run-max_term : (ts : List Task) (w : World) → max_term w ≤ max_term (run w ts)
unfolding Reached
run-max_term ts w = run-kept (max_term-IsKept (max_term w)) ts w (le_refl (max_term w))
