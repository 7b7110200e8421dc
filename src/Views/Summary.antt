-- ===== src/Views/Summary.antt =====
-- infra/dashboard/js/views/summaryView.js: the summary in the header.
pub mod Majority
use atividade_consenso_raft.Base.{
  ℕ, ◌+◌, ◌/◌, String, string_eq, Option, none, some, List, [], ◌∷◌, get?, length, ltb, not,
  if◌then◌else◌, or_default,
}
use atividade_consenso_raft.Event.{is_text}
use atividade_consenso_raft.Store.State.{State, NodeState}

-- `quorum` is `quorum/size`.
pub record Summary : Type 0 where
  pub term : ℕ
  pub commit : ℕ
  pub quorum : ℕ
  pub size : ℕ
  pub leader : String
  pub heartbeat_ms : ℕ

abbrev pub commit_of : Option NodeState → ℕ → ℕ
commit_of none top = top
commit_of (some n) top = if ltb top n.commit_idx then n.commit_idx else top

unfoldable pub commit_max : State → List String → ℕ → ℕ
commit_max s [] top = top
commit_max s (id ∷ ids) top = commit_max s ids (commit_of (get? id s.nodes) top)

unfoldable pub summary : State → Summary
unfolding commit_max
summary s = record {
  term = s.max_term;
  commit = commit_max s s.node_ids 0;
  quorum = length s.node_ids / 2 + 1;
  size = length s.node_ids;
  leader = if is_text s.leader then or_default s.leader "" else "—";
  heartbeat_ms = s.heartbeat_ms;
}
