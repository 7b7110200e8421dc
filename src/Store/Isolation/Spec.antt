-- ===== src/Store/Isolation/Spec.antt =====
-- The isolation of nodes seen as two sets, and the groups that the banner shows.
use atividade_consenso_raft.Base.{
  String, string_eq, Bool, false, not, ◌&&◌, ◌||◌, List, [], ◌∷◌, ◌≡◌, refl, ◌==◌, if◌then◌else◌,
  has, add, delete, has-add, has-delete, has-add_all, has-select, select, arith, ◌⊎◌, inl, inr,
}
use atividade_consenso_raft.Store.State.{State}
use atividade_consenso_raft.Store.Isolation.{
  clear_declared_partitions, toggle_pending_isolation, commit_pending, release_applied, groups_of,
}

-- Who is marked and who is isolated; the order of marking is forgotten.
pub record Marks : Type 0 where
  pub pending : String → Bool
  pub applied : String → Bool

abbrev pub marks : State → Marks
marks s = record {
  pending = λ n. has n s.pending_isolations;
  applied = λ n. has n s.applied_isolations;
}

-- The contract of the four operations on the two sets.
abbrev pub toggle : String → Marks → Marks
toggle id m = record m { pending = λ n. if id == n then not (m.pending n) else m.pending n }

abbrev pub commit : Marks → Marks
commit m = record { pending = λ _. false; applied = λ n. m.pending n || m.applied n }

abbrev pub release : String → Marks → Marks
release id m = record m { applied = λ n. not (id == n) && m.applied n }

abbrev pub clear : Marks → Marks
clear m = record { pending = λ _. false; applied = λ _. false }

pub has-toggle :
    (id n : String) (xs : List String)
    → has n (if has id xs then delete id xs else add id xs)
      ≡ (if id == n then not (has n xs) else has n xs)
has-toggle id n xs = ground (arith, has-delete id n xs, has-add id n xs, string_eq.test_iff id n)

-- Marking or unmarking a node, applying the marks, releasing a node and clearing all, as the
-- store does them on its lists, do to the set of marked nodes and the set of isolated nodes what
-- the contract of each says.
pub marks_refine :
    (id : String) (s : State)
    → (marks (toggle_pending_isolation id s) ≡ toggle id (marks s))
      × (marks (commit_pending s) ≡ commit (marks s))
      × (marks (release_applied id s) ≡ release id (marks s))
      × (marks (clear_declared_partitions s) ≡ clear (marks s))
unfolding toggle_pending_isolation commit_pending release_applied clear_declared_partitions has
marks_refine id s = (
  λ i. record (marks s) { pending = λ n. has-toggle id n s.pending_isolations i },
  λ i. record {
    pending = λ n. false;
    applied = λ n. has-add_all n s.pending_isolations s.applied_isolations i;
  },
  λ i. record (marks s) { applied = λ n. has-delete id n s.applied_isolations i },
  refl,
)

-- The banner shows the isolated nodes: no group if there are none; else two, the isolated nodes and
-- the other nodes, so that no node stands in both.
abbrev pub Shows : List String → List String → List (List String) → Type 0
Shows node_ids applied groups =
    ((applied ≡ []) × (groups ≡ []))
    ⊎ ((isolate majority : List String) × (groups ≡ isolate ∷ majority ∷ [])
        × ((n : String) → has n isolate ≡ has n applied)
        × ((n : String) → has n majority ≡ (not (has n applied) && has n node_ids)))

groups_of-Shows : (ids next : List String) → Shows ids next (groups_of ids next)
unfolding groups_of
groups_of-Shows ids [] = inl (refl, refl)
groups_of-Shows ids (x ∷ next) = inr (
  x ∷ next,
  select (λ n. not (has n (x ∷ next))) ids,
  refl,
  λ n. refl,
  λ n. has-select (λ m. not (has m (x ∷ next))) n ids,
)

-- After a release the banner shows the nodes that are still isolated.
pub release_applied-Shows :
    (id : String) (s : State)
    → Shows s.node_ids
        (release_applied id s).applied_isolations
        (release_applied id s).declared_partitions
unfolding release_applied
release_applied-Shows id s = groups_of-Shows s.node_ids (delete id s.applied_isolations)
