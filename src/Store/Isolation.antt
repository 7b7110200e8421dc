-- ===== src/Store/Isolation.antt =====
-- The operations of infra/dashboard/js/store.js on declared partitions and isolated nodes.
pub mod Spec
use atividade_consenso_raft.Base.{
  String, string_eq, not, List, [], ◌∷◌, select, has, add, delete, add_all, if◌then◌else◌,
}
use atividade_consenso_raft.Store.State.{State}

unfoldable pub set_declared_partitions : List (List String) → State → State
set_declared_partitions groups s = record s { declared_partitions = groups }

unfoldable pub clear_declared_partitions : State → State
clear_declared_partitions s = record s {
  declared_partitions = [];
  pending_isolations = [];
  applied_isolations = [];
}

unfoldable pub toggle_pending_isolation : String → State → State
toggle_pending_isolation id s = record s {
  pending_isolations =
      if has id s.pending_isolations
      then delete id s.pending_isolations
      else add id s.pending_isolations;
}

unfoldable pub commit_pending : State → State
commit_pending s = record s {
  applied_isolations = add_all s.pending_isolations s.applied_isolations;
  pending_isolations = [];
}

-- The groups of the banner after a release; `next` are the nodes still isolated.
unfoldable pub groups_of : List String → List String → List (List String)
groups_of node_ids [] = []
groups_of node_ids (x ∷ next) = (x ∷ next) ∷ select (λ n. not (has n (x ∷ next))) node_ids ∷ []

unfoldable pub release_applied : String → State → State
unfolding groups_of
release_applied id s =
    let next = delete id s.applied_isolations in
    record s { applied_isolations = next; declared_partitions = groups_of s.node_ids next }
