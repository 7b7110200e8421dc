-- ===== src/Store/Invariant/Start.antt =====
-- The state of createStore is valid.
use atividade_consenso_raft.Base.{
  ℕ, String, string_eq, nat_eq, option_eq, List, [], ◌∷◌, refl, All, All-insert, insert, has, arith,
  Map,
}
use atividade_consenso_raft.Store.State.{
  NodeState, LogEntry, create_store, initial_nodes, initial_node, initial_logs,
}
use atividade_consenso_raft.Store.Logs.Window.{LogIsValid}
use atividade_consenso_raft.Store.Invariant.{NodeIsValid, NodesAreValid, IsValid}

initial_nodes-IsValid :
    (ids : List String) (m : Map String NodeState)
    → NodesAreValid 0 m
    → NodesAreValid 0 (initial_nodes ids m)
unfolding initial_nodes
initial_nodes-IsValid [] m v = v
initial_nodes-IsValid (id ∷ ids) m v = initial_nodes-IsValid ids (insert id (initial_node id) m) (
    All-insert (NodeIsValid 0) id (initial_node id) m v
      (record { named = refl; covered = omega arith }))

initial_logs-IsValid :
    (ids : List String) (m : Map String (List LogEntry))
    → All (λ p. LogIsValid p.1) m
    → All (λ p. LogIsValid p.1) (initial_logs ids m)
unfolding initial_logs
initial_logs-IsValid [] m v = v
initial_logs-IsValid (id ∷ ids) m v =
    initial_logs-IsValid ids (insert id [] m)
      (All-insert (λ _. LogIsValid) id [] m v (record { bounded = omega arith; distinct = tt }))

pub create_store-IsValid :
    (ids : List String) (heartbeat now : ℕ) → IsValid (create_store ids heartbeat now)
unfolding create_store has
create_store-IsValid ids heartbeat now = record {
  covered = initial_nodes-IsValid ids [] tt;
  logged = initial_logs-IsValid ids [] tt;
  marked_once = tt;
  isolated_once = tt;
  apart = λ n. refl;
}
