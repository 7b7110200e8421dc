-- ===== src/Page/Errors.antt =====
-- What goes wrong outside the page, and what the page makes of it.
use atividade_consenso_raft.Base.{
  ℕ, Bool, true, false, none, some, ◌≡◌, refl, inl, inr, arith, Option-cases, if◌then◌else◌,
}
use atividade_consenso_raft.Store.State.{State}
use atividade_consenso_raft.Store.Isolation.{clear_declared_partitions}
use atividade_consenso_raft.World.{
  World, Request, kill_leader, heal_all, kill_node, release_node, heal_node, put, partition,
}
use atividade_consenso_raft.Controls.{pull, answered, answer, lose}
use atividade_consenso_raft.Sse.{on_message, fetch_snapshot}
use atividade_consenso_raft.Page.{Task, message, snapshot, answers, loses, act}

-- A message that is no JSON, a log that could not be fetched, a request that is lost or is refused.
abbrev pub IsFailure : Task → Type 0
IsFailure (message id none) = Unit
IsFailure (snapshot id none) = Unit
IsFailure (answers i false) = Unit
IsFailure (loses i) = Unit
IsFailure _ = ⊥

abbrev pub is_heal : Request → Bool
is_heal heal_all = true
is_heal _ = false

-- Is it "Curar tudo" that is answered?
abbrev pub refuses_heal : World → Task → Bool
refuses_heal w (answers i ok) = elim (pull i w.requests) [ none ↦ false | some (r, rs) ↦ is_heal r ]
refuses_heal w _ = false

answered_refused :
    (r : Request) (s : State)
    → answered r false s ≡ (if is_heal r then clear_declared_partitions s else s)
unfolding answered
answered_refused kill_leader s = refl
answered_refused heal_all s = refl
answered_refused (kill_node id) s = refl
answered_refused (release_node id) s = refl
answered_refused (heal_node id) s = refl
answered_refused (put key value) s = refl
answered_refused (partition isolate majority) s = refl

answer_refused :
    (i : ℕ) (w : World)
    → (answer i false w).state
      ≡ (if refuses_heal w (answers i false) then clear_declared_partitions w.state else w.state)
unfolding answer
answer_refused i w = elim (Option-cases (pull i w.requests)) [
  | inl e ↦ ground (arith, e)
  | inr ((r, rs), e) ↦ ground (arith, e, answered_refused r w.state)
]

-- A message that is no JSON, a log that could not be fetched, and a request that is lost or is refused
-- leave the store as it is, but for one case: when the broker refuses "Curar tudo", the declared
-- partition and the marks are cleared nevertheless.
pub failure-keeps :
    (w : World) (t : Task)
    → IsFailure t
    → (act w t).state ≡ (if refuses_heal w t then clear_declared_partitions w.state else w.state)
unfolding act lose fetch_snapshot on_message
failure-keeps w (message id none) f = refl
failure-keeps w (snapshot id none) f = refl
failure-keeps w (answers i false) f = answer_refused i w
failure-keeps w (loses i) f = ground arith
failure-keeps w _ f = absurd f
