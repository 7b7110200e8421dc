-- ===== src/Views/Topology/Panes.antt =====
-- infra/dashboard/js/views/topologyView.js: the boxes of the nodes and what they show.
use atividade_consenso_raft.Base.{
  ℕ, ◌*◌, ◌-◌, String, string_eq, Bool, false, ◌||◌, Option, none, some, List, [], ◌∷◌, ◌++◌, Map,
  get?, insert, has, ltb, concat, decimal, if◌then◌else◌,
}
use atividade_consenso_raft.Config.{poll_tick_ms}
use atividade_consenso_raft.Store.State.{State, NodeState}

-- The `div` of a node; `role` is the text, and `data_role` the attribute.
pub record Box : Type 0 where
  pub left : String
  pub top : String
  pub name : String
  pub role : Option String
  pub stats : String
  pub data_role : Option String
  pub is_disconnected : Bool
  pub is_stale : Bool
  pub is_pending : Bool

abbrev pub blank : Box
blank = record {
  left = "";
  top = "";
  name = "";
  role = some "";
  stats = "";
  data_role = none;
  is_disconnected = false;
  is_stale = false;
  is_pending = false;
}

unfoldable pub ensure_nodes : List String → Map String Box → Map String Box
unfolding get?
ensure_nodes [] boxes = boxes
ensure_nodes (id ∷ ids) boxes = elim (get? id boxes) [
  | some box ↦ ensure_nodes ids boxes
  | none ↦ ensure_nodes ids (boxes ++ (id, blank) ∷ [])
]

abbrev pub stale_limit : ℕ
stale_limit = 3 * poll_tick_ms

unfoldable pub stats_text : NodeState → String
unfolding concat
stats_text n = concat (
    "term "
    ∷ decimal n.term
    ∷ "<br>commit "
    ∷ decimal n.commit_idx
    ∷ "<br>last_log "
    ∷ decimal n.last_log_idx
    ∷ [])

unfoldable pub fill_box : State → ℕ → String → NodeState → Box → Box
unfolding has stats_text
fill_box s now id n box =
    let stale = ltb stale_limit (now - n.last_seen) in
    record box {
      name = id;
      role = if stale then some "DESCONECTADO" else n.role;
      stats = stats_text n;
      data_role = n.role;
      is_disconnected = stale;
      is_stale = stale;
      is_pending = has id s.pending_isolations || has id s.applied_isolations;
    }

-- What a node's box becomes; a node or a box that is not there is left out.
abbrev pub change_box : (Box → Box) → String → Map String Box → Map String Box
change_box f id boxes = elim (get? id boxes) [ none ↦ boxes | some box ↦ insert id (f box) boxes ]

unfoldable pub render_nodes : State → ℕ → List String → Map String Box → Map String Box
unfolding get? insert fill_box
render_nodes s now [] boxes = boxes
render_nodes s now (id ∷ ids) boxes = elim (get? id s.nodes) [
  | none ↦ render_nodes s now ids boxes
  | some n ↦ render_nodes s now ids (change_box (fill_box s now id n) id boxes)
]
