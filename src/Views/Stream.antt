-- ===== src/Views/Stream.antt =====
-- infra/dashboard/js/views/eventStreamView.js: the textual stream, the newest line first. A line is
-- the event that it prints.
pub mod Window
pub mod Format
use atividade_consenso_raft.Base.{
  ℕ, zero, suc, Bool, true, false, not, String, List, [], ◌∷◌, ◌++◌, length, ltb, if◌then◌else◌,
}
use atividade_consenso_raft.Config.{stream_window}
use atividade_consenso_raft.Event.{Event}
use atividade_consenso_raft.Views.Filters.{compose_filters}

-- The three check boxes.
pub record Toggles : Type 0 where
  pub heartbeats : Bool
  pub state_snapshots : Bool
  pub replication : Bool

unfoldable pub compute_active : Toggles → List String
compute_active cb =
    (if cb.heartbeats then "hideHeartbeats" ∷ [] else [])
    ++ (if cb.state_snapshots then "hideStateSnapshots" ∷ [] else [])
    ++ (if cb.replication then "hideReplication" ∷ [] else [])

pub record Stream : Type 0 where
  pub active : List String
  pub lines : List Event

-- At first all boxes are checked and there is no line.
unfoldable pub mount_stream : Stream
unfolding compute_active
mount_stream = record {
  active =
      compute_active (record { heartbeats = true; state_snapshots = true; replication = true });
  lines = [];
}

-- A box is checked or unchecked: the lines that are there stay.
unfoldable pub set_boxes : Toggles → Stream → Stream
unfolding compute_active
set_boxes cb s = record s { active = compute_active cb }

-- `list.removeChild(list.lastChild)`
unfoldable pub without_last : List Event → List Event
without_last [] = []
without_last (x ∷ []) = []
without_last (x ∷ y ∷ lines) = x ∷ without_last (y ∷ lines)

-- The `while` loop; the fuel is the number of lines, of which each step takes one.
unfoldable pub shorten : ℕ → List Event → List Event
unfolding without_last
shorten zero lines = lines
shorten (suc fuel) lines = elim (ltb stream_window (length lines)) [
  | true ↦ shorten fuel (without_last lines)
  | false ↦ lines
]

unfoldable pub show_event : Event → Stream → Stream
unfolding shorten compose_filters
show_event evt s =
    if not (compose_filters s.active evt)
    then s
    else record s { lines = shorten (length (evt ∷ s.lines)) (evt ∷ s.lines) }

-- One event after another.
unfoldable pub show_all : List Event → Stream → Stream
unfolding show_event
show_all [] s = s
show_all (evt ∷ evts) s = show_all evts (show_event evt s)
