-- ===== src/Store/Invariant.antt =====
-- What every operation of the store keeps.
pub mod Isolation
pub mod Start
use atividade_consenso_raft.Base.{
  ℕ, ◌≤◌, String, string_eq, nat_eq, option_eq, false, not, ◌&&◌, Option, some, List, [], ◌∷◌, ◌≡◌,
  refl, inl, inr, All, All-mono, All-insert, All-get?, get?, insert, Distinct, Distinct-add,
  Distinct-delete, Distinct-add_all, has, add, delete, has-delete, arith, Option-cases, Bool-cases,
  if◌then◌else◌, ◌==◌, Map,
}
use atividade_consenso_raft.Store.State.{
  NodeState, LogEntry, State, create_store, initial_nodes, initial_node, initial_logs, Packet,
  link_key,
}
use atividade_consenso_raft.Store.Nodes.{
  Partial, update_found, update_node, set_leader, set_match_index, set_heartbeat_ms,
}
use atividade_consenso_raft.Store.Links.{mark_key, mark_resp_seen, tick_silence}
use atividade_consenso_raft.Store.Logs.{append_log}
use atividade_consenso_raft.Store.Logs.Window.{LogIsValid, append_log-LogIsValid}
use atividade_consenso_raft.Store.Packets.{record_packet, remove_packet}
use atividade_consenso_raft.Store.Isolation.{
  set_declared_partitions, clear_declared_partitions, toggle_pending_isolation, commit_pending,
  release_applied,
}
use atividade_consenso_raft.Store.Isolation.Spec.{has-toggle}

-- A node under its own id, whose term the store's greatest term covers.
pub record NodeIsValid (top : ℕ) (id : String) (n : NodeState) : Type 0 where
  pub named : n.id ≡ id
  pub covered : n.term ≤ top

abbrev pub NodesAreValid : ℕ → Map String NodeState → Type 0
NodesAreValid top = All (λ p. NodeIsValid top p.0 p.1)

-- The parts of a state that the invariant speaks of.
pub record PartsAreValid (top : ℕ) (nodes : Map String NodeState)
    (logs : Map String (List LogEntry)) (pending applied : List String) : Type 0 where
  pub covered : NodesAreValid top nodes
  pub logged : All (λ p. LogIsValid p.1) logs
  pub marked_once : Distinct pending
  pub isolated_once : Distinct applied
  pub apart : (n : String) → (has n pending && has n applied) ≡ false

abbrev pub IsValid : State → Type 0
IsValid s = PartsAreValid s.max_term s.nodes s.logs s.pending_isolations s.applied_isolations

NodesAreValid-mono :
    {t u : ℕ} (m : Map String NodeState) → t ≤ u → NodesAreValid t m → NodesAreValid u m
NodesAreValid-mono m h = All-mono (λ p v. record { named = v.named; covered = omega arith }) m

update_found-NodesAreValid :
    (id : String) (p : Partial) (now : ℕ) (n : NodeState) (s : State)
    → NodesAreValid s.max_term s.nodes
    → get? id s.nodes ≡ some n
    → NodesAreValid (update_found id p now n s).max_term (update_found id p now n s).nodes
unfolding update_found
update_found-NodesAreValid id p now n s v found =
    All-insert (NodeIsValid top) id _ s.nodes (NodesAreValid-mono s.nodes (ground arith) v)
      (record {
        named = (All-get? (NodeIsValid s.max_term) id s.nodes v found).named;
        covered = ground arith;
      })
  where
    top : ℕ
    top = (update_found id p now n s).max_term

pub update_node-IsValid :
    (id : String) (p : Partial) (now : ℕ) (s : State) → IsValid s → IsValid (update_node id p now s)
unfolding update_node
update_node-IsValid id p now s v = elim (Option-cases (get? id s.nodes)) [
  | inl e ↦ rw (e, update_node) v
  | inr (n, e) ↦
      rw (e, update_node)
        (record {
          covered = update_found-NodesAreValid id p now n s v.covered e;
          logged = v.logged;
          marked_once = v.marked_once;
          isolated_once = v.isolated_once;
          apart = v.apart;
        })
]

pub set_leader-IsValid : (id : Option String) (s : State) → IsValid s → IsValid (set_leader id s)
unfolding set_leader
set_leader-IsValid id s v = v

pub set_match_index-IsValid :
    (leader peer : String) (index : ℕ) (s : State)
    → IsValid s
    → IsValid (set_match_index leader peer index s)
unfolding set_match_index
set_match_index-IsValid leader peer index s v = elim (Option-cases (get? leader s.nodes)) [
  | inl e ↦ rw (e, set_match_index) v
  | inr (n, e) ↦
      let old : NodeIsValid s.max_term leader n =
        All-get? (NodeIsValid s.max_term) leader s.nodes v.covered e in
      rw (e, set_match_index)
        (record {
          covered =
              All-insert (NodeIsValid s.max_term) leader _ s.nodes v.covered
                (record { named = old.named; covered = old.covered });
          logged = v.logged;
          marked_once = v.marked_once;
          isolated_once = v.isolated_once;
          apart = v.apart;
        })
]

pub set_heartbeat_ms-IsValid : (ms : ℕ) (s : State) → IsValid s → IsValid (set_heartbeat_ms ms s)
unfolding set_heartbeat_ms
set_heartbeat_ms-IsValid ms s v = elim (Bool-cases (not (ms == 0) && not (s.heartbeat_ms == ms))) [
  | inr e ↦ rw e v
  | inl e ↦ rw e v
]

pub mark_resp_seen-IsValid :
    (a b : String) (t : ℕ) (s : State) → IsValid s → IsValid (mark_resp_seen a b t s)
unfolding mark_resp_seen mark_key
mark_resp_seen-IsValid a b t s v = elim (Option-cases (get? (link_key a b) s.links)) [
  | inl e ↦ rw (e, mark_key) v
  | inr (l, e) ↦ rw (e, mark_key) v
]

pub tick_silence-IsValid : (now : ℕ) (s : State) → IsValid s → IsValid (tick_silence now s)
unfolding tick_silence
tick_silence-IsValid now s v = v

pub append_log-IsValid :
    (id : String) (e : LogEntry) (now : ℕ) (s : State) → IsValid s → IsValid (append_log id e now s)
unfolding append_log
append_log-IsValid id e now s v = record {
  covered = v.covered;
  logged = append_log-LogIsValid id e now s v.logged;
  marked_once = v.marked_once;
  isolated_once = v.isolated_once;
  apart = v.apart;
}

pub record_packet-IsValid : (p : Packet) (s : State) → IsValid s → IsValid (record_packet p s)
unfolding record_packet
record_packet-IsValid p s v = v

pub remove_packet-IsValid : (id : ℕ) (s : State) → IsValid s → IsValid (remove_packet id s)
unfolding remove_packet
remove_packet-IsValid id s v = v
