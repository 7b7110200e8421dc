-- ===== src/Page/Known.antt =====
-- Which nodes and links the page knows.
pub mod Start
use atividade_consenso_raft.Base.{
  ℕ, ◌*◌, String, string_eq, Bool, true, false, ◌||◌, Option, some, none, List, [], ◌∷◌, ◌++◌, All,
  All-mono, All-append, beq_refl, get?, insert, get?-insert, Map, ◌≡◌, refl, arith, inl, inr,
  Bool-cases, Option-cases, ◌==◌, has, is_some,
}
use atividade_consenso_raft.Config.{heartbeat_ms_fallback}
use atividade_consenso_raft.Store.State.{
  State, Link, NodeState, link_key, create_store, initial_nodes, initial_node, initial_row,
  initial_links,
}
use atividade_consenso_raft.Store.Nodes.{
  Partial, update_found, update_node, set_leader, set_match_index, set_heartbeat_ms,
}
use atividade_consenso_raft.Store.Links.{mark_key, mark_resp_seen, tick_silence, silence}
use atividade_consenso_raft.Store.Links.Silence.{get?-silence_all, silent, get?-mark_key}
use atividade_consenso_raft.Store.Logs.{append_log}
use atividade_consenso_raft.Store.Packets.{record_packet, remove_packet}
use atividade_consenso_raft.Store.Isolation.{
  set_declared_partitions, clear_declared_partitions, toggle_pending_isolation, commit_pending,
  release_applied,
}
use atividade_consenso_raft.Page.{Task, run, start}
use atividade_consenso_raft.Page.Frame.{IsKept, run-kept}

abbrev pub KnowsLink : String → State → Type 0
KnowsLink k s = is_some (get? k s.links) ≡ true

abbrev pub KnowsNode : String → State → Type 0
KnowsNode id s = is_some (get? id s.nodes) ≡ true

abbrev pub HasIds : List String → State → Type 0
HasIds ids s = s.node_ids ≡ ids

module _ {V : Type 0} where
  pub is_some-insert :
      (k j : String) (v : V) (m : Map String V)
      → is_some (get? j (insert k v m)) ≡ (k == j || is_some (get? j m))
  is_some-insert k j v m = ground (arith, get?-insert k j v m)

  pub stays :
      (k j : String) (v : V) (m : Map String V)
      → is_some (get? k m) ≡ true
      → is_some (get? k (insert j v m)) ≡ true
  stays k j v m h = ground (arith, is_some-insert j k v m)

mark_key-KnowsLink :
    (j k : String) (t : ℕ) (s : State) → KnowsLink k s → KnowsLink k (mark_key j t s)
unfolding mark_key
mark_key-KnowsLink j k t s v = elim (Option-cases (get? j s.links)) [
  | inl e ↦ rw (e, mark_key) (stays k j (record { last_resp = t; down = false }) s.links v)
  | inr (l, e) ↦ rw (e, mark_key) (stays k j (record l { last_resp = t }) s.links v)
]

update_node-KnowsNode :
    (id k : String) (p : Partial) (now : ℕ) (s : State)
    → KnowsNode k s
    → KnowsNode k (update_node id p now s)
unfolding update_node update_found
update_node-KnowsNode id k p now s v = elim (Option-cases (get? id s.nodes)) [
  | inl e ↦ rw (e, update_node) v
  | inr (n, e) ↦ rw (e, update_node) (stays k id _ s.nodes v)
]

set_match_index-KnowsNode :
    (leader peer k : String) (index : ℕ) (s : State)
    → KnowsNode k s
    → KnowsNode k (set_match_index leader peer index s)
unfolding set_match_index
set_match_index-KnowsNode leader peer k index s v = elim (Option-cases (get? leader s.nodes)) [
  | inl e ↦ rw (e, set_match_index) v
  | inr (n, e) ↦ rw (e, set_match_index) (stays k leader _ s.nodes v)
]

pub HasIds-IsKept : (ids : List String) → IsKept (HasIds ids)
unfolding update_node update_found set_leader set_match_index set_heartbeat_ms mark_resp_seen
    mark_key tick_silence append_log record_packet remove_packet set_declared_partitions
    clear_declared_partitions toggle_pending_isolation commit_pending release_applied
HasIds-IsKept ids = record {
  update_node_kept = λ id p now s v. ground arith;
  set_leader_kept = λ id s v. v;
  set_match_index_kept = λ leader peer index s v. ground arith;
  set_heartbeat_ms_kept = λ ms s v. ground arith;
  mark_resp_seen_kept = λ a b t s v. ground arith;
  tick_silence_kept = λ now s v. v;
  append_log_kept = λ id e now s v. ground arith;
  record_packet_kept = λ p s v. v;
  remove_packet_kept = λ id s v. v;
  set_declared_kept = λ gs s v. v;
  clear_declared_kept = λ s v. v;
  toggle_pending_kept = λ id s v. ground arith;
  commit_pending_kept = λ s v. v;
  release_applied_kept = λ id s v. ground arith;
}

pub KnowsLink-IsKept : (k : String) → IsKept (KnowsLink k)
unfolding update_node update_found set_leader set_match_index set_heartbeat_ms mark_resp_seen
    mark_key tick_silence append_log record_packet remove_packet set_declared_partitions
    clear_declared_partitions toggle_pending_isolation commit_pending release_applied silent
KnowsLink-IsKept k = record {
  update_node_kept = λ id p now s v. ground arith;
  set_leader_kept = λ id s v. v;
  set_match_index_kept = λ leader peer index s v. ground arith;
  set_heartbeat_ms_kept = λ ms s v. ground arith;
  mark_resp_seen_kept = λ a b t s v. mark_key-KnowsLink (link_key a b) k t s v;
  tick_silence_kept =
      λ now s v. ground (arith, get?-silence_all now (2 * s.heartbeat_ms) k s.links);
  append_log_kept = λ id e now s v. ground arith;
  record_packet_kept = λ p s v. v;
  remove_packet_kept = λ id s v. v;
  set_declared_kept = λ gs s v. v;
  clear_declared_kept = λ s v. v;
  toggle_pending_kept = λ id s v. ground arith;
  commit_pending_kept = λ s v. v;
  release_applied_kept = λ id s v. ground arith;
}

pub KnowsNode-IsKept : (k : String) → IsKept (KnowsNode k)
unfolding update_node update_found set_leader set_match_index set_heartbeat_ms mark_resp_seen
    mark_key tick_silence append_log record_packet remove_packet set_declared_partitions
    clear_declared_partitions toggle_pending_isolation commit_pending release_applied
KnowsNode-IsKept k = record {
  update_node_kept = λ id p now s v. update_node-KnowsNode id k p now s v;
  set_leader_kept = λ id s v. v;
  set_match_index_kept = λ leader peer index s v. set_match_index-KnowsNode leader peer k index s v;
  set_heartbeat_ms_kept = λ ms s v. ground arith;
  mark_resp_seen_kept = λ a b t s v. ground arith;
  tick_silence_kept = λ now s v. v;
  append_log_kept = λ id e now s v. ground arith;
  record_packet_kept = λ p s v. v;
  remove_packet_kept = λ id s v. v;
  set_declared_kept = λ gs s v. v;
  clear_declared_kept = λ s v. v;
  toggle_pending_kept = λ id s v. ground arith;
  commit_pending_kept = λ s v. v;
  release_applied_kept = λ id s v. ground arith;
}
