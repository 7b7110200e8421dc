-- ===== src/Views/Elements/Table/Shape.antt =====
-- The table of the logs is rectangular.
use atividade_consenso_raft.Base.{
  ℕ, false, suc, string_eq, nat_eq, ◌==◌, some, List, [], ◌∷◌, map, length, length-map, All,
  Bool-cases, inl, inr, ◌≡◌, refl, ap, sym, ◌∙◌, subst,
}
use atividade_consenso_raft.Store.State.{State}
use atividade_consenso_raft.Views.LogPanel.{
  Cell, log_panel, row, row_numbers, min_idx, max_idx, ref_term, cell,
}
use atividade_consenso_raft.Views.Elements.{Element, Elements, element, no_more, child, children}
use atividade_consenso_raft.Views.Elements.Table.{head_element, row_element}

abbrev pub count : Elements → ℕ
count no_more = 0
count (child e es) = suc (count es)

-- How many children an element has.
abbrev pub width : Element → ℕ
width (element tag cls title text es) = count es

count-children : (es : List Element) → count (children es) ≡ length es
count-children [] = refl
count-children (e ∷ es) = ap suc (count-children es)

width-head_element : (s : State) → width (head_element s) ≡ suc (length s.node_ids)
unfolding head_element
width-head_element s = ap suc (count-children _ ∙ length-map _ s.node_ids)

width-row :
    (s : State) (now idx : ℕ) → width (row_element s (row s now idx)) ≡ suc (length s.node_ids)
unfolding row_element row
width-row s now idx = ap suc (
    count-children _
    ∙ length-map _ (map (cell s now idx (ref_term s idx s.node_ids)) s.node_ids)
    ∙ length-map _ s.node_ids)

rows_width :
    (s : State) (now : ℕ) (numbers : List ℕ)
    → All (λ r. width (row_element s r) ≡ width (head_element s)) (map (row s now) numbers)
rows_width s now [] = tt
rows_width s now (idx ∷ numbers) =
    (width-row s now idx ∙ sym (width-head_element s), rows_width s now numbers)

-- Where there is a table, each of its rows has as many cells as its head: one for the index, and one for
-- each node of the page.
pub log_panel-rectangular :
    (s : State) (now : ℕ) (rows : List (ℕ × List Cell))
    → log_panel s now ≡ some rows
    → All (λ r. width (row_element s r) ≡ width (head_element s)) rows
      × (width (head_element s) ≡ suc (length s.node_ids))
unfolding log_panel
log_panel-rectangular s now rows h = elim (Bool-cases (max_idx s == 0)) [
  | inl none_yet ↦ cc
  | inr some_there ↦ (
    subst (All (λ r. width (row_element s r) ≡ width (head_element s))) (same some_there)
        (rows_width s now (row_numbers (max_idx s) (min_idx (max_idx s)))),
    width-head_element s,
  )
]
  where
    same :
        (max_idx s == 0) ≡ false
        → map (row s now) (row_numbers (max_idx s) (min_idx (max_idx s))) ≡ rows
    same full =
        let seen : some (map (row s now) (row_numbers (max_idx s) (min_idx (max_idx s))))
            ≡ some rows =
          rw (full, log_panel) at h in
        cc
