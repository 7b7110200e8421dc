-- ===== src/Views/Elements/Table.antt =====
-- The table of infra/dashboard/js/views/logPanelView.js as elements.
pub mod Shape
use atividade_consenso_raft.Base.{
  ℕ, String, string_eq, Option, none, some, List, [], ◌∷◌, map, concat, join, decimal,
}
use atividade_consenso_raft.Store.State.{State}
use atividade_consenso_raft.Views.LogPanel.{
  Cell, shown, appended, out_of_window, absent, ref_term, log_panel,
}
use atividade_consenso_raft.Views.LogPanel.Text.{CellText, cell_text, empty_note}
use atividade_consenso_raft.Views.Elements.{Element, Elements, element, child, el, children, parent}

-- An entry has two parts, of the classes "cmd" and "kv", and another cell one text.
unfoldable pub td_of : CellText → List String → Element
unfolding join
td_of c (cmd ∷ kv ∷ rest) =
    element "td" (join " " c.classes) c.title ""
      (children (el "span" "cmd" cmd ∷ el "span" "kv" kv ∷ []))
td_of c parts = element "td" (join " " c.classes) c.title (concat parts) (children [])

unfoldable pub head_element : State → Element
head_element s =
    parent "tr" "" (el "th" "col-idx" "índice" ∷ map (λ id. el "th" "col-no" id) s.node_ids)

abbrev pub cell_element : Option (Option ℕ) → Cell → Element
cell_element ref c = let text = cell_text ref c in td_of text text.parts

unfoldable pub row_element : State → ℕ × List Cell → Element
unfolding td_of cell_text ref_term
row_element s (idx, cells) =
    parent "tr" ""
      (el "td" "col-idx" (decimal idx) ∷ map (cell_element (ref_term s idx s.node_ids)) cells)

abbrev pub legend : Element
legend =
    el "div" "logs-legenda"
      "\n      <span class=\"leg comprometido\">PUT chave=valor</span> aplicado ·\n      <span class=\"leg em-voo\">em voo</span> anexado mas não comprometido ·\n      <span class=\"leg ausente\">—</span> ausente neste nó ·\n      <span class=\"leg divergente\">cor avermelhada</span> term divergente\n    "

-- What `render` puts into the container.
unfoldable pub log_elements : State → ℕ → List Element
unfolding log_panel head_element row_element
log_elements s now = elim (log_panel s now) [
  | none ↦ el "div" "logs-vazio" empty_note ∷ []
  | some rows ↦
      parent "table" "logs-matriz" (
        parent "thead" "" (head_element s ∷ []) ∷ parent "tbody" "" (map (row_element s) rows) ∷ [])
      ∷ legend
      ∷ []
]

unfoldable pub mount_logs : State → ℕ → List Element
unfolding log_elements
mount_logs s now =
    el "h2" "" "Logs replicados" ∷ parent "div" "logs-container" (log_elements s now) ∷ []
