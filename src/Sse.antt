-- ===== src/Sse.antt =====
-- infra/dashboard/js/sse.js: the streams of the nodes, and the log that is fetched when one opens.
pub mod Replay
pub mod Sources
use atividade_consenso_raft.Base.{ℕ, String, Option, none, some, List, [], ◌∷◌, not, if◌then◌else◌}
use atividade_consenso_raft.Event.{Event, bare, is_text}
use atividade_consenso_raft.World.{World}
use atividade_consenso_raft.Main.{deliver}

-- An element of `entries` in the body of `/log/<id>`.
pub record SnapshotEntry : Type 0 where
  pub index : Option ℕ
  pub term : Option ℕ
  pub command : Option String
  pub key : Option String
  pub value : Option String

unfoldable pub snapshot_event : String → SnapshotEntry → Event
snapshot_event id e = record (bare "log_entry") {
  node = some id;
  from = some id;
  to = some id;
  index = e.index;
  term = e.term;
  command = e.command;
  key = e.key;
  value = e.value;
}

unfoldable pub deliver_entries : String → List SnapshotEntry → World → World
unfolding snapshot_event
deliver_entries id [] w = w
deliver_entries id (e ∷ entries) w = deliver_entries id entries (deliver (snapshot_event id e) w)

-- `none` is a request that failed, or an answer that is no JSON.
unfoldable pub fetch_snapshot : String → Option (List SnapshotEntry) → World → World
unfolding deliver_entries
fetch_snapshot id none w = w
fetch_snapshot id (some entries) w = deliver_entries id entries w

unfoldable pub with_node : String → Event → Event
with_node id evt = if not (is_text evt.node) then record evt { node = some id } else evt

-- `none` is a message that is no JSON.
unfoldable pub on_message : String → Option Event → World → World
unfolding with_node
on_message id none w = w
on_message id (some evt) w = deliver (with_node id evt) w
