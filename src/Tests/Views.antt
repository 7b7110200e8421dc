-- ===== src/Tests/Views.antt =====
-- The theorems on the views at concrete inputs.
use atividade_consenso_raft.Base.{
  ◌<◌, String, ◌-◌, ◌≤◌, min, string_eq, nat_eq, option_eq, Bool, true, false, not, some, List, [],
  ◌∷◌, ◌≡◌, refl, get?, has, ltb, ◌==◌, arith, insert,
}
use atividade_consenso_raft.Config.{highlight_apply_ms}
use atividade_consenso_raft.Event.{Event}
use atividade_consenso_raft.Store.State.{State, LogEntry, create_store, initial_node}
use atividade_consenso_raft.Store.Logs.Commit.{log_of}
use atividade_consenso_raft.Handlers.{on_apply}
use atividade_consenso_raft.Page.{start}
use atividade_consenso_raft.Views.Filters.{hide_state_snapshots}
use atividade_consenso_raft.Views.Stream.{Toggles, Stream, show_all}
use atividade_consenso_raft.Views.LogPanel.{cell, shown, is_different, log_panel, max_idx}
use atividade_consenso_raft.Views.LogPanel.Rows.{down_from, IsCovered, log_panel-rows}
use atividade_consenso_raft.Views.LogPanel.Applied.{on_apply-cell}
use atividade_consenso_raft.Handlers.Rpc.{on_rpc_send}
use atividade_consenso_raft.Tests.Data.{
  two_entries-LogIsValid, three_nodes, node1_page, page_of, two_entries, state_event, append_event,
  resp_event, apply_event,
}

abbrev boxes : Toggles
boxes = record { heartbeats = true; state_snapshots = true; replication = false }

abbrev stream : Stream
stream = record { active = "hideStateSnapshots" ∷ []; lines = resp_event ∷ [] }

abbrev evts : List Event
evts = append_event ∷ state_event ∷ apply_event ∷ []

show_all_run : (show_all evts stream).lines ≡ apply_event ∷ append_event ∷ resp_event ∷ []
unfolding show_all get? hide_state_snapshots
show_all_run = refl

on_apply-cell_example :
    (q : LogEntry) × (cell (on_apply apply_event node1_page).state 3000 5 (some (some 3)) "node1"
      ≡ shown q true (is_different (some (some 3)) q.term) (ltb (3000 - 2000) highlight_apply_ms))
    × (q.key ≡ some "boto")
    × (q.value ≡ some "morno")
on_apply-cell_example =
    on_apply-cell apply_event node1_page 5 3000 (some (some 3)) two_entries-LogIsValid refl
      (omega arith)

abbrev table : State
table = (page_of [] [] [] two_entries).state

log_panel-rows_example :
    (2 ∷ 1 ∷ [] ≡ down_from (max_idx table) (min (max_idx table) 30))
    × (0 < max_idx table)
    × IsCovered table (max_idx table) "node1"
    × (max_idx table ≤ 2)
unfolding log_panel get? has log_of
log_panel-rows_example =
    log_panel-rows table 3000 _ "node1" 2 refl refl (
      ((omega arith, (omega arith, tt)), omega arith),
      ((tt, omega arith), ((tt, omega arith), tt)),
    )

abbrev started : State
started = (start three_nodes 0 0).state

node2_known : get? "node1" started.nodes ≡ some (initial_node "node1")
unfolding start create_store get? insert
node2_known = refl

-- A packet in flight, between nodes that have a place but for node 3.
abbrev in_flight_state : State
in_flight_state = (on_rpc_send append_event node1_page).state

abbrev placed : String → Bool
placed id = not (id == "node3")
