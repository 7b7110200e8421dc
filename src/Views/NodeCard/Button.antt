-- ===== src/Views/NodeCard/Button.antt =====
-- The text on the isolation button, as the marks change.
use atividade_consenso_raft.Base.{
  String, string_eq, ◌==◌, Bool, true, false, not, ◌&&◌, ◌||◌, has, has-add_all, has-delete,
  if◌then◌else◌, ◌≡◌, refl, arith, beq_refl,
}
use atividade_consenso_raft.Store.State.{State}
use atividade_consenso_raft.Store.Isolation.{
  toggle_pending_isolation, commit_pending, release_applied, clear_declared_partitions,
}
use atividade_consenso_raft.Store.Isolation.Spec.{has-toggle}
use atividade_consenso_raft.Store.Invariant.{IsValid}
use atividade_consenso_raft.Views.NodeCard.{button_for, button_text}

abbrev pub after_click : String → String
after_click text =
    if text == "Isolar" then "Cancelar" else if text == "Cancelar" then "Isolar" else text

abbrev pub after_apply : String → String
after_apply text = if text == "Cancelar" then "Liberar" else text

abbrev pub after_release : String → String
after_release text = if text == "Liberar" then "Isolar" else text

click_text : (a p : Bool) → button_for a (not p) ≡ after_click (button_for a p)
click_text true true = refl
click_text true false = refl
click_text false true = refl
click_text false false = refl

apply_text : (a p : Bool) → button_for (p || a) false ≡ after_apply (button_for a p)
apply_text true true = refl
apply_text true false = refl
apply_text false true = refl
apply_text false false = refl

release_text : (a p : Bool) → (p && a) ≡ false → button_for false p ≡ after_release (button_for a p)
release_text true true h = absurd (ground arith)
release_text true false h = refl
release_text false true h = refl
release_text false false h = refl

-- In a valid state, the text on the button of a node goes from "Isolar" to "Cancelar" and back as
-- the node is marked and unmarked, from "Cancelar" to "Liberar" when the marks are applied, and
-- from "Liberar" to "Isolar" when the node is released; else these leave it as it is. When all is
-- cleared it is "Isolar".
pub button_text-cycle :
    (id : String) (s : State)
    → IsValid s
    → (button_text id (toggle_pending_isolation id s) ≡ after_click (button_text id s))
      × (button_text id (commit_pending s) ≡ after_apply (button_text id s))
      × (button_text id (release_applied id s) ≡ after_release (button_text id s))
      × (button_text id (clear_declared_partitions s) ≡ "Isolar")
unfolding button_text toggle_pending_isolation commit_pending release_applied
    clear_declared_partitions has
button_text-cycle id s v = (
  rw (has-toggle id id s.pending_isolations, beq_refl id) (click_text applied pending),
  rw (has-add_all id s.pending_isolations s.applied_isolations) (apply_text applied pending),
  rw (has-delete id id s.applied_isolations, beq_refl id)
      (release_text applied pending (v.apart id)),
  refl,
)
  where
    applied : Bool
    applied = has id s.applied_isolations

    pending : Bool
    pending = has id s.pending_isolations
