-- ===== src/Store/State.antt =====
-- The state that createStore in infra/dashboard/js/store.js builds. Times are milliseconds of
-- Date.now(), and an operation that reads the clock takes the reading as an argument.
use atividade_consenso_raft.Base.{
  ℕ, String, Bool, false, Option, none, some, List, [], ◌∷◌, Map, insert, str_ltb, join_bar,
  string_eq, if◌then◌else◌,
}

pub record NodeState : Type 0 where
  pub id : String
  pub role : Option String
  pub term : ℕ
  pub commit_idx : ℕ
  pub last_log_idx : ℕ
  pub last_applied : ℕ
  pub last_seen : ℕ
  pub match_index : Map String ℕ

pub record Link : Type 0 where
  pub last_resp : ℕ
  pub down : Bool

pub record LogEntry : Type 0 where
  pub index : Option ℕ
  pub term : Option ℕ
  pub command : Option String
  pub key : Option String
  pub value : Option String
  pub committed : Bool

-- `p7` has the id 7. Durations and `performance.now()` are in hundredths of a millisecond.
pub record Packet : Type 0 where
  pub id : ℕ
  pub from : String
  pub to : String
  pub rpc : Option String
  pub entries : ℕ
  pub kind : String
  pub term : Option ℕ
  pub success : Option Bool
  pub granted : Option Bool
  pub t_start : ℕ
  pub duration : ℕ

pub record Quorum : Type 0 where
  pub index : ℕ
  pub t_ms : ℕ

pub record State : Type 0 where
  pub node_ids : List String
  pub nodes : Map String NodeState
  pub links : Map String Link
  pub logs : Map String (List LogEntry)
  pub packets : List Packet
  pub leader : Option String
  pub max_term : ℕ
  pub declared_partitions : List (List String)
  pub pending_isolations : List String
  pub applied_isolations : List String
  pub heartbeat_ms : ℕ
  pub recently_applied : Map String (Map (Option ℕ) ℕ)
  pub recently_committed_leader : Map String Quorum

unfoldable pub link_key : String → String → String
link_key a b = if str_ltb a b then join_bar a b else join_bar b a

unfoldable pub initial_node : String → NodeState
initial_node id = record {
  id = id;
  role = some "follower";
  term = 0;
  commit_idx = 0;
  last_log_idx = 0;
  last_applied = 0;
  last_seen = 0;
  match_index = [];
}

-- `nodes[id] = …` for each id
unfoldable pub initial_nodes : List String → Map String NodeState → Map String NodeState
unfolding initial_node
initial_nodes [] m = m
initial_nodes (id ∷ ids) m = initial_nodes ids (insert id (initial_node id) m)

-- The inner loop, over the ids behind `a`, and the outer one.
unfoldable pub initial_row : String → List String → ℕ → Map String Link → Map String Link
initial_row a [] now m = m
initial_row a (b ∷ bs) now m =
    initial_row a bs now (insert (link_key a b) (record { last_resp = now; down = false }) m)

unfoldable pub initial_links : List String → ℕ → Map String Link → Map String Link
unfolding initial_row
initial_links [] now m = m
initial_links (a ∷ ids) now m = initial_links ids now (initial_row a ids now m)

unfoldable pub initial_logs : List String → Map String (List LogEntry) → Map String (List LogEntry)
initial_logs [] m = m
initial_logs (id ∷ ids) m = initial_logs ids (insert id [] m)

unfoldable pub create_store : List String → ℕ → ℕ → State
unfolding initial_nodes initial_links initial_logs
create_store node_ids heartbeat_ms now = record {
  node_ids = node_ids;
  nodes = initial_nodes node_ids [];
  links = initial_links node_ids now [];
  logs = initial_logs node_ids [];
  packets = [];
  leader = none;
  max_term = 0;
  declared_partitions = [];
  pending_isolations = [];
  applied_isolations = [];
  heartbeat_ms = heartbeat_ms;
  recently_applied = [];
  recently_committed_leader = [];
}
