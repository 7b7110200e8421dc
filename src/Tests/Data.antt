-- ===== src/Tests/Data.antt =====
-- The states, events and tasks of the tests.
use atividade_consenso_raft.Base.{
  nat_eq, option_eq, string_eq, arith, refl, get?, has, ℕ, String, string_eq, Bool, true, false,
  none, some, List, [], ◌∷◌,
}
use atividade_consenso_raft.Event.{Event, bare}
use atividade_consenso_raft.Store.State.{LogEntry}
use atividade_consenso_raft.Store.Logs.Window.{LogIsValid}
use atividade_consenso_raft.Store.Logs.Commit.{log_of}
use atividade_consenso_raft.World.{World, boot}

abbrev pub three_nodes : List String
three_nodes = "node1" ∷ "node2" ∷ "node3" ∷ []

-- A page of three nodes with these marks and isolations, and the log of node 1.
abbrev pub page_of : List String → List String → List (List String) → List LogEntry → World
page_of pending applied groups log =
    boot
      (record {
        node_ids = three_nodes;
        nodes = [];
        links = ("node1|node2", record { last_resp = 1000; down = false }) ∷ [];
        logs = ("node1", log) ∷ [];
        packets = [];
        leader = none;
        max_term = 0;
        declared_partitions = groups;
        pending_isolations = pending;
        applied_isolations = applied;
        heartbeat_ms = 5000;
        recently_applied = [];
        recently_committed_leader = [];
      })
      2000 0

abbrev pub entry_at : ℕ → Bool → LogEntry
entry_at i committed = record {
  index = some i;
  term = some 1;
  command = some "PUT";
  key = some "saci";
  value = some "doce";
  committed = committed;
}

-- The log that node 1 shows: one entry applied, one in flight.
abbrev pub two_entries : List LogEntry
two_entries = entry_at 1 true ∷ entry_at 2 false ∷ []

abbrev pub node1_page : World
node1_page = page_of [] [] [] two_entries

abbrev pub state_event : Event
state_event = record (bare "state") {
  node = some "node1";
  role = some "leader";
  term = some 3;
  commit_idx = some 4;
  last_log_idx = some 4;
  last_applied = some 4;
  heartbeat_ms = some 2000;
}

abbrev pub append_event : Event
append_event = record (bare "rpc_send") {
  node = some "node1";
  from = some "node1";
  to = some "node2";
  rpc = some "AppendEntries";
  term = some 3;
  entries = some 2;
}

abbrev pub resp_event : Event
resp_event = record (bare "rpc_resp") {
  node = some "node2";
  from = some "node2";
  to = some "node1";
  rpc = some "AppendEntriesResp";
  term = some 3;
  success = some true;
}

abbrev pub apply_event : Event
apply_event = record (bare "apply") {
  node = some "node1";
  index = some 5;
  term = some 3;
  command = some "PUT";
  key = some "boto";
  value = some "morno";
}

-- The leader sends the entry of `apply_event` to node 1.
abbrev pub log_event : Event
log_event = record apply_event {
  type = "log_entry";
  node = some "node2";
  from = some "node2";
  to = some "node1";
}

pub two_entries-LogIsValid : LogIsValid (log_of "node1" node1_page.state)
unfolding log_of get? has
two_entries-LogIsValid = record { bounded = omega arith; distinct = (refl, (refl, tt)) }
