-- ===== src/Controls/Apply.antt =====
-- The button "Aplicar partição" and its click.
use atividade_consenso_raft.Base.{
  ℕ, String, Bool, true, false, not, ◌&&◌, Option, none, some, List, [], ◌∷◌, ◌++◌, length, ltb,
  if◌then◌else◌, ◌≡◌, refl, arith,
}
use atividade_consenso_raft.Store.State.{State}
use atividade_consenso_raft.World.{World, partition}
use atividade_consenso_raft.Controls.{ask_partition, majority_of, apply_button, click_apply}

abbrev pub is_shown : Option ℕ → Bool
is_shown none = false
is_shown (some n) = true

abbrev pub is_empty : List String → Bool
is_empty [] = true
is_empty (x ∷ xs) = false

ask_partition_lem :
    (isolate majority : List String) (w : World)
    → ((ask_partition isolate majority w).requests ≡ (
        if not (is_empty isolate) && not (is_empty majority)
        then w.requests ++ partition isolate majority ∷ []
        else w.requests))
      × ((ask_partition isolate majority w).state ≡ w.state)
unfolding ask_partition
ask_partition_lem [] majority w = (refl, refl)
ask_partition_lem (x ∷ isolate) [] w = (refl, refl)
ask_partition_lem (x ∷ isolate) (y ∷ majority) w = (refl, refl)

shown_lem : (s : State) → is_shown (apply_button s) ≡ not (is_empty s.pending_isolations)
unfolding apply_button
shown_lem s = shown s.pending_isolations
  where
    shown :
        (xs : List String)
        → is_shown (if ltb 0 (length xs) then some (length xs) else none) ≡ not (is_empty xs)
    shown [] = refl
    shown (x ∷ xs) = ground arith

-- A click asks for the partition of the marked nodes from all others exactly if the button is shown
-- and not all nodes are marked; the marks and the isolated nodes stay as they are until the answer.
pub click_apply-requests :
    (w : World)
    → ((click_apply w).requests ≡ (
        if is_shown (apply_button w.state) && not (is_empty (majority_of w.state))
        then w.requests ++ partition w.state.pending_isolations (majority_of w.state) ∷ []
        else w.requests))
      × ((click_apply w).state ≡ w.state)
unfolding click_apply
click_apply-requests w =
    rw shown_lem (ask_partition_lem w.state.pending_isolations (majority_of w.state) w)
