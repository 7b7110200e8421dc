-- ===== src/Views/LogPanel.antt =====
-- infra/dashboard/js/views/logPanelView.js: the matrix of the logs, a row for each index and a column
-- for each node.
pub mod Rows
pub mod Applied
pub mod Text
use atividade_consenso_raft.Base.{
  ℕ, zero, suc, ◌-◌, max, String, string_eq, nat_eq, option_eq, ◌==◌, Bool, true, false, not, ◌&&◌,
  ◌||◌, Option, none, some, List, [], ◌∷◌, map, get?, ltb, leb, or_default, if◌then◌else◌,
}
use atividade_consenso_raft.Config.{log_window, highlight_apply_ms}
use atividade_consenso_raft.Event.{or_zero}
use atividade_consenso_raft.Store.State.{State, LogEntry, NodeState}

-- The loop over the entries of a log, and the one over the nodes.
unfoldable pub top_of_log : List LogEntry → ℕ → ℕ
top_of_log [] top = top
top_of_log (e ∷ arr) top =
    top_of_log arr (if ltb top (or_zero e.index) then or_zero e.index else top)

abbrev pub node_top : Option NodeState → ℕ → ℕ
node_top none top = top
node_top (some n) top = max top n.last_log_idx

unfoldable pub top_of_nodes : State → List String → ℕ → ℕ
unfolding top_of_log
top_of_nodes s [] top = top
top_of_nodes s (id ∷ ids) top =
    top_of_nodes s ids
      (top_of_log (or_default (get? id s.logs) []) (node_top (get? id s.nodes) top))

unfoldable pub max_idx : State → ℕ
unfolding top_of_nodes
max_idx s = top_of_nodes s s.node_ids 0

abbrev pub min_idx : ℕ → ℕ
min_idx top = max 1 (suc top - log_window)

-- `for (let idx = maxIdx; idx >= minIdx; idx--)`, where `minIdx` is at least 1.
unfoldable pub row_numbers : ℕ → ℕ → List ℕ
row_numbers zero lowest = []
row_numbers (suc k) lowest = elim (leb lowest (suc k)) [
  | true ↦ suc k ∷ row_numbers k lowest
  | false ↦ []
]

-- `byNodeIdx[id][idx]`: the last entry of an index stays in the object.
unfoldable pub cell_entry : ℕ → List LogEntry → Option LogEntry
cell_entry idx [] = none
cell_entry idx (e ∷ arr) = elim (cell_entry idx arr) [
  | some later ↦ some later
  | none ↦ if e.index == some idx then some e else none
]

-- The term of the first node that has the entry; `none` is `null`.
unfoldable pub ref_term : State → ℕ → List String → Option (Option ℕ)
unfolding cell_entry
ref_term s idx [] = none
ref_term s idx (id ∷ ids) = elim (cell_entry idx (or_default (get? id s.logs) [])) [
  | some e ↦ some e.term
  | none ↦ ref_term s idx ids
]

-- A cell: an entry, with its three marks; "em voo"; "· comprometida ·"; or "—".
pub data Cell : Type 0 where
  shown : LogEntry → (committed differs recent : Bool) → Cell
  appended out_of_window absent : Cell

abbrev pub is_reached : Option NodeState → ℕ → Bool
is_reached none idx = false
is_reached (some n) idx = leb idx n.commit_idx

abbrev pub is_different : Option (Option ℕ) → Option ℕ → Bool
is_different none term = false
is_different (some ref) term = not (term == ref)

-- `appliedAt && (Date.now() - appliedAt) < HIGHLIGHT_APPLY_MS`
abbrev pub is_recent : Option ℕ → ℕ → Bool
is_recent none now = false
is_recent (some applied_at) now = not (applied_at == 0) && ltb (now - applied_at) highlight_apply_ms

unfoldable pub empty_cell : Option NodeState → ℕ → Cell
empty_cell none idx = absent
empty_cell (some n) idx =
    if leb idx n.last_log_idx
    then (if ltb n.commit_idx idx then appended else out_of_window)
    else absent

unfoldable pub cell : State → ℕ → ℕ → Option (Option ℕ) → String → Cell
unfolding cell_entry empty_cell
cell s now idx ref id = elim (cell_entry idx (or_default (get? id s.logs) [])) [
  | some e ↦
      shown e (e.committed || is_reached (get? id s.nodes) idx) (is_different ref e.term)
        (is_recent (get? (some idx) (or_default (get? id s.recently_applied) [])) now)
  | none ↦ empty_cell (get? id s.nodes) idx
]

unfoldable pub row : State → ℕ → ℕ → ℕ × List Cell
unfolding cell ref_term
row s now idx = (idx, map (cell s now idx (ref_term s idx s.node_ids)) s.node_ids)

-- No table where there is no entry yet.
unfoldable pub log_panel : State → ℕ → Option (List (ℕ × List Cell))
unfolding max_idx row row_numbers
log_panel s now =
    if max_idx s == 0
    then none
    else some (map (row s now) (row_numbers (max_idx s) (min_idx (max_idx s))))
