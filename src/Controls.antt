-- ===== src/Controls.antt =====
-- The buttons of infra/dashboard/js/views/controlsView.js and nodeCardView.js. A click that asks the
-- broker leaves a request under way; what stands behind the `await` is done when it is answered.
pub mod Apply
pub mod Words
use atividade_consenso_raft.Base.{
  length, ltb, concat, decimal, ◌==◌, nat_eq, ℕ, zero, suc, String, string_eq, Bool, true, not,
  Option, none, some, List, [], ◌∷◌, ◌++◌, has, select, if◌then◌else◌,
}
use atividade_consenso_raft.Store.State.{State}
use atividade_consenso_raft.Store.Isolation.{
  set_declared_partitions, clear_declared_partitions, toggle_pending_isolation, commit_pending,
  release_applied,
}
use atividade_consenso_raft.World.{
  World, with_state, Request, kill_leader, heal_all, kill_node, release_node, heal_node, partition,
}

abbrev pub ask : Request → World → World
ask r w = record w { requests = w.requests ++ r ∷ [] }

-- "Matar líder" and "Curar tudo" in the header; "Matar" and "Curar este nó" on the card of a node.
abbrev pub click_kill_leader : World → World
click_kill_leader w = ask kill_leader w

abbrev pub click_heal_all : World → World
click_heal_all w = ask heal_all w

abbrev pub click_kill : String → World → World
click_kill id w = ask (kill_node id) w

abbrev pub click_heal : String → World → World
click_heal id w = ask (heal_node id) w

-- `s.node_ids.filter(n => !s.pending_isolations.has(n))`
abbrev pub majority_of : State → List String
majority_of s = select (λ n. not (has n s.pending_isolations)) s.node_ids

-- Nothing is asked if either side is empty.
unfoldable pub ask_partition : List String → List String → World → World
ask_partition [] majority w = w
ask_partition (x ∷ isolate) [] w = w
ask_partition (x ∷ isolate) (y ∷ majority) w = ask (partition (x ∷ isolate) (y ∷ majority)) w

-- The button "Aplicar partição": hidden, or with the number of marked nodes.
unfoldable pub apply_button : State → Option ℕ
apply_button s =
    if ltb 0 (length s.pending_isolations) then some (length s.pending_isolations) else none

-- `Aplicar partição (${n} marcado${n === 1 ? '' : 's'})`
unfoldable pub apply_text : ℕ → String
unfolding concat
apply_text n =
    concat ("Aplicar partição (" ∷ decimal n ∷ " marcado" ∷ (if n == 1 then "" else "s") ∷ ")" ∷ [])

unfoldable pub apply_label : State → Option String
unfolding apply_button apply_text
apply_label s = elim (apply_button s) [ none ↦ none | some n ↦ some (apply_text n) ]

unfoldable pub click_apply : World → World
unfolding ask_partition has
click_apply w = ask_partition w.state.pending_isolations (majority_of w.state) w

unfoldable pub click_isolate : String → World → World
click_isolate id w =
    if has id w.state.applied_isolations
    then ask (release_node id) w
    else with_state (toggle_pending_isolation id) w

-- What a handler does when its request is answered; the flag is `resp.ok`.
unfoldable pub answered : Request → Bool → State → State
answered heal_all ok s = clear_declared_partitions s
answered (partition isolate majority) true s =
    commit_pending (set_declared_partitions (isolate ∷ majority ∷ []) s)
answered (release_node id) true s = release_applied id s
answered _ _ s = s

-- The request at a position, and the others.
unfoldable pub pull : ℕ → List Request → Option (Request × List Request)
pull i [] = none
pull zero (r ∷ rs) = some (r, rs)
pull (suc i) (r ∷ rs) = elim (pull i rs) [ none ↦ none | some (q, qs) ↦ some (q, r ∷ qs) ]

unfoldable pub answer : ℕ → Bool → World → World
unfolding pull answered
answer i ok w = elim (pull i w.requests) [
  | none ↦ w
  | some (r, rs) ↦ record w { requests = rs; state = answered r ok w.state }
]

-- The request did not go through: `fetch` throws, and the rest of the handler is not run.
unfoldable pub lose : ℕ → World → World
unfolding pull
lose i w = elim (pull i w.requests) [ none ↦ w | some (r, rs) ↦ record w { requests = rs } ]
