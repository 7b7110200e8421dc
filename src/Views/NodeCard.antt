-- ===== src/Views/NodeCard.antt =====
-- infra/dashboard/js/views/nodeCardView.js: the card of a node.
pub mod Freshness
pub mod Button
pub mod Text
use atividade_consenso_raft.Base.{
  ℕ, ◌*◌, ◌-◌, String, string_eq, ◌==◌, Bool, true, false, ◌&&◌, ◌||◌, Option, none, some, get?,
  has, ltb, if◌then◌else◌,
}
use atividade_consenso_raft.Config.{poll_tick_ms, highlight_quorum_ms}
use atividade_consenso_raft.Store.State.{State, NodeState, Quorum}
use atividade_consenso_raft.Store.Nodes.{is_leader}
use atividade_consenso_raft.Views.NodeCard.Text.{card_stats}

abbrev pub stale_ms : ℕ
stale_ms = 3 * poll_tick_ms

-- `heal_shown` is the display of "Curar este nó", and `quorum` the index on the badge.
pub record Card : Type 0 where
  pub role : Option String
  pub is_stale : Bool
  pub papel : Option String
  pub quorum : Option ℕ
  pub stats : String
  pub button : String
  pub is_active : Bool
  pub is_pending : Bool
  pub heal_shown : Bool

unfoldable pub is_stale_at : ℕ → NodeState → Bool
is_stale_at now n = ltb stale_ms (now - n.last_seen)

unfoldable pub quorum_badge : ℕ → Option String → Option Quorum → Option ℕ
quorum_badge now role none = none
quorum_badge now role (some q) =
    if is_leader role && ltb (now - q.t_ms) highlight_quorum_ms then some q.index else none

abbrev pub button_for : Bool → Bool → String
button_for applied pending = if applied then "Liberar" else if pending then "Cancelar" else "Isolar"

unfoldable pub button_text : String → State → String
button_text id s = button_for (has id s.applied_isolations) (has id s.pending_isolations)

unfoldable pub fill_card : State → ℕ → String → NodeState → Card
unfolding is_stale_at quorum_badge button_text card_stats
fill_card s now id n = record {
  role = n.role;
  is_stale = is_stale_at now n;
  papel = if is_stale_at now n then some "sem resposta" else n.role;
  quorum = quorum_badge now n.role (get? id s.recently_committed_leader);
  stats = card_stats n (quorum_badge now n.role (get? id s.recently_committed_leader));
  button = button_text id s;
  is_active = has id s.pending_isolations || has id s.applied_isolations;
  is_pending = has id s.pending_isolations || has id s.applied_isolations;
  heal_shown = is_stale_at now n;
}

-- A node that the store does not know has no card to fill.
unfoldable pub render_card : State → ℕ → String → Option Card
unfolding fill_card
render_card s now id = elim (get? id s.nodes) [ none ↦ none | some n ↦ some (fill_card s now id n) ]
