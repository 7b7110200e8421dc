-- ===== src/Views/LogPanel/Text.antt =====
-- What infra/dashboard/js/views/logPanelView.js writes into the table: its head, the classes and texts of a
-- cell, and the note where there is no entry yet.
use atividade_consenso_raft.Base.{
  ℕ, String, Bool, Option, none, some, List, [], ◌∷◌, ◌++◌, concat, if◌then◌else◌,
}
use atividade_consenso_raft.Event.{is_text, prop_key, number_text}
use atividade_consenso_raft.Store.State.{State, LogEntry}
use atividade_consenso_raft.Views.LogPanel.{Cell, shown, appended, out_of_window, absent}

-- A cell of the table: its classes, its parts ("cmd" and "kv", or one text), and its title.
pub record CellText : Type 0 where
  pub classes : List String
  pub parts : List String
  pub title : String

abbrev pub kv_text : LogEntry → String
kv_text e =
    if is_text e.value
    then concat (prop_key e.key ∷ "=" ∷ prop_key e.value ∷ [])
    else (if is_text e.key then prop_key e.key else "")

unfoldable pub shown_classes : Bool → Bool → Bool → List String
shown_classes committed differs recent =
    "cel"
      ∷ (if committed then "comprometido" else "em-voo")
      ∷ (if differs then "divergente" ∷ [] else [])
    ++ (if recent then "recem-aplicado" ∷ [] else [])

-- `ref` is the term of the first node that has the entry.
unfoldable pub cell_text : Option (Option ℕ) → Cell → CellText
unfolding concat shown_classes
cell_text ref (shown e committed differs recent) = record {
  classes = shown_classes committed differs recent;
  parts = (if is_text e.command then prop_key e.command else "") ∷ kv_text e ∷ [];
  title =
      if differs
      then concat (
          "term "
          ∷ number_text e.term
          ∷ " difere do esperado "
          ∷ (elim ref [ none ↦ "null" | some t ↦ number_text t ])
          ∷ [])
      else "";
}
cell_text ref appended = record {
  classes = "cel" ∷ "em-voo" ∷ [];
  parts = "em voo" ∷ [];
  title = "anexada ao log local mas ainda não comprometida (sem comando exposto)";
}
cell_text ref out_of_window = record {
  classes = "cel" ∷ "em-voo" ∷ "fora-janela" ∷ [];
  parts = "· comprometida ·" ∷ [];
  title = "commit_idx alcança esse índice, mas o evento apply não foi capturado nesta sessão";
}
cell_text ref absent = record {
  classes = "cel" ∷ "ausente" ∷ [];
  parts = "—" ∷ [];
  title = "este nó ainda não recebeu/aplicou essa entrada";
}

-- The head of the table, and what stands in place of a table without a row.
unfoldable pub head_row : State → List String
head_row s = "índice" ∷ s.node_ids

abbrev pub empty_note : String
empty_note = "Nenhuma entrada de log ainda. Use \"Put aleatório\" no header."
