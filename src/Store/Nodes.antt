-- ===== src/Store/Nodes.antt =====
-- The operations of infra/dashboard/js/store.js on nodes, the leader and the heartbeat.
use atividade_consenso_raft.Base.{
  or_default, ℕ, String, string_eq, Bool, false, ◌&&◌, ◌||◌, not, Option, none, some, Map, get?,
  insert, ltb, nat_eq, ◌==◌, if◌then◌else◌,
}
use atividade_consenso_raft.Event.{is_text}
use atividade_consenso_raft.Store.State.{NodeState, Quorum, State}

-- The argument `partial`: a field is `none` where the object has no such key.
pub record Partial : Type 0 where
  pub role : Option (Option String)
  pub term : Option ℕ
  pub commit_idx : Option ℕ
  pub last_log_idx : Option ℕ
  pub last_applied : Option ℕ

-- `Object.assign(n, partial)`
unfoldable pub assign : NodeState → Partial → NodeState
assign n partial = record n {
  role = or_default partial.role n.role;
  term = or_default partial.term n.term;
  commit_idx = or_default partial.commit_idx n.commit_idx;
  last_log_idx = or_default partial.last_log_idx n.last_log_idx;
  last_applied = or_default partial.last_applied n.last_applied;
}

-- `role === 'leader'`
abbrev pub is_leader : Option String → Bool
is_leader none = false
is_leader (some role) = role == "leader"

-- The badge of a node that is or was the leader, when its commit index rises.
unfoldable pub commit_badge :
    Bool → Option ℕ → ℕ → String → ℕ → Map String Quorum → Map String Quorum
commit_badge leads none old id now badges = badges
commit_badge leads (some commit) old id now badges =
    if leads && ltb old commit
    then insert id (record { index = commit; t_ms = now }) badges
    else badges

unfoldable pub update_found : String → Partial → ℕ → NodeState → State → State
unfolding assign commit_badge
update_found id partial now n s =
    let n' = record (assign n partial) { last_seen = now } in
    record s {
      nodes = insert id n' s.nodes;
      max_term = if ltb s.max_term n'.term then n'.term else s.max_term;
      leader = if is_leader n'.role then some id else s.leader;
      recently_committed_leader =
          commit_badge
            (is_leader n'.role || is_leader (or_default partial.role none) || is_leader n.role)
            partial.commit_idx n.commit_idx id now s.recently_committed_leader;
    }

-- An unknown node changes nothing.
unfoldable pub update_node : String → Partial → ℕ → State → State
unfolding update_found
update_node id partial now s = elim (get? id s.nodes) [
  | none ↦ s
  | some n ↦ update_found id partial now n s
]

unfoldable pub set_leader : Option String → State → State
set_leader id s = record s { leader = if is_text id then id else s.leader }

unfoldable pub set_match_index : String → String → ℕ → State → State
set_match_index leader peer index s = elim (get? leader s.nodes) [
  | none ↦ s
  | some n ↦ record s {
    nodes = insert leader (record n { match_index = insert peer index n.match_index }) s.nodes;
  }
]

unfoldable pub set_heartbeat_ms : ℕ → State → State
set_heartbeat_ms ms s =
    if not (ms == 0) && not (s.heartbeat_ms == ms) then record s { heartbeat_ms = ms } else s
