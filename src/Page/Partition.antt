-- ===== src/Page/Partition.antt =====
-- Applying a partition: the click, the broker's answer, and what may happen in between.
use atividade_consenso_raft.Base.{
  String, string_eq, Bool, true, false, not, ◌&&◌, ◌||◌, List, [], ◌∷◌, ◌≡◌, refl, ap, ap₂, sym,
  subst, ◌∙◌, inl, inr, has, has-select, has-add_all, add_all, arith, beq_refl,
}
use atividade_consenso_raft.Store.State.{State}
use atividade_consenso_raft.Store.Isolation.{
  set_declared_partitions, commit_pending, toggle_pending_isolation,
}
use atividade_consenso_raft.Store.Isolation.Spec.{Shows, has-toggle}
use atividade_consenso_raft.World.{World, with_state, Request, partition}
use atividade_consenso_raft.Controls.{
  majority_of, click_apply, click_isolate, ask, ask_partition, answer, answered,
}
use atividade_consenso_raft.Page.{press_apply, press_isolate, answers, act, run}

or_true : (b : Bool) → (b || true) ≡ true
or_true b = ground arith

or_false : (b : Bool) → (b || false) ≡ b
or_false b = ground arith

-- The click asks for a partition of the marked nodes and the others.
pub click_apply-ask :
    (w : World) {x y : String} {isolate majority : List String}
    → w.state.pending_isolations ≡ x ∷ isolate
    → majority_of w.state ≡ y ∷ majority
    → click_apply w ≡ ask (partition (x ∷ isolate) (y ∷ majority)) w
unfolding click_apply
click_apply-ask w marked others = ap₂ (λ p m. ask_partition p m w) marked others

answer-ask :
    (r : Request) (ok : Bool) (w : World)
    → w.requests ≡ []
    → answer 0 ok (ask r w) ≡ record w { requests = []; state = answered r ok w.state }
unfolding answer
answer-ask r ok w none_asked = ground arith

-- What the broker's answer leaves of a state.
abbrev pub partitioned : List String → List String → State → State
partitioned isolate majority s =
    commit_pending (set_declared_partitions (isolate ∷ majority ∷ []) s)

apply-partitioned :
    (w : World) {x y : String} {isolate majority : List String}
    → w.requests ≡ []
    → w.state.pending_isolations ≡ x ∷ isolate
    → majority_of w.state ≡ y ∷ majority
    → run w (press_apply ∷ answers 0 true ∷ [])
      ≡ record w { requests = []; state = partitioned (x ∷ isolate) (y ∷ majority) w.state }
unfolding act run answered
apply-partitioned w {x} {y} {isolate} {majority} none_asked marked others =
    rw (click_apply-ask w marked others)
      (answer-ask (partition (x ∷ isolate) (y ∷ majority)) true w none_asked)

partitioned-Shows :
    (s : State) (isolate majority : List String)
    → s.applied_isolations ≡ []
    → s.pending_isolations ≡ isolate
    → majority_of s ≡ majority
    → Shows s.node_ids
        (partitioned isolate majority s).applied_isolations
        (partitioned isolate majority s).declared_partitions
      × ((n : String)
          → has n (partitioned isolate majority s).applied_isolations ≡ has n s.pending_isolations)
unfolding commit_pending set_declared_partitions has
partitioned-Shows s isolate majority none_applied marked others = (
  inr (
    isolate,
    majority,
    refl,
    λ n. ap (has n) (sym marked) ∙ sym (same n),
    λ n.
        ap (has n) (sym others)
        ∙ has-select (λ m. not (has m s.pending_isolations)) n s.node_ids
        ∙ ap (λ b. not b && has n s.node_ids) (sym (same n)),
  ),
  same,
)
  where
    same :
        (n : String)
        → has n (add_all s.pending_isolations s.applied_isolations) ≡ has n s.pending_isolations
    same n =
        rw (has-add_all n s.pending_isolations s.applied_isolations, none_applied)
          (or_false (has n s.pending_isolations))

-- A partition goes through if no request is under way, no node was isolated before, both sides
-- have nodes, and nothing else happens before the broker's answer: the nodes that were marked are
-- isolated, no node is marked any more, and the banner shows it.
pub apply-Shows :
    (w : World) (x y : String) (isolate majority : List String)
    → w.requests ≡ []
    → w.state.applied_isolations ≡ []
    → w.state.pending_isolations ≡ x ∷ isolate
    → majority_of w.state ≡ y ∷ majority
    → let s = (run w (press_apply ∷ answers 0 true ∷ [])).state in
      Shows s.node_ids s.applied_isolations s.declared_partitions
      × (s.pending_isolations ≡ [])
      × ((n : String) → has n s.applied_isolations ≡ has n w.state.pending_isolations)
unfolding commit_pending set_declared_partitions
apply-Shows w x y isolate majority none_asked none_applied marked others =
    rw (apply-partitioned w none_asked marked others) (
      let (shows, same) =
        partitioned-Shows w.state (x ∷ isolate) (y ∷ majority) none_applied marked others in
      (shows, refl, same))

-- A banner does not show the isolated nodes if one of them stands in the second group.
second_group-misleads :
    (ids applied isolate majority : List String) (n : String)
    → has n applied ≡ true
    → has n majority ≡ true
    → ¬ Shows ids applied (isolate ∷ majority ∷ [])
second_group-misleads ids applied isolate majority n held seen (inl (e, e')) = cc
second_group-misleads ids applied isolate majority n held seen (inr (i, m, same, first, second)) =
    let wrong : has n majority ≡ (not (has n applied) && has n ids) =
      subst (λ g. has n g ≡ (not (has n applied) && has n ids)) (sym (cc)) (second n) in
    cc (wrong, held, seen)

-- Where no request is under way, a partition that is applied while a node is still isolated from
-- an earlier one and not marked again leaves this node isolated, and a banner that does not show
-- the isolated nodes.
pub second_apply-misleads :
    (w : World) (x y : String) (isolate majority : List String) (n : String)
    → w.requests ≡ []
    → w.state.pending_isolations ≡ x ∷ isolate
    → majority_of w.state ≡ y ∷ majority
    → has n w.state.applied_isolations ≡ true
    → has n (y ∷ majority) ≡ true
    → let s = (run w (press_apply ∷ answers 0 true ∷ [])).state in
      (has n s.applied_isolations ≡ true)
      × (¬ Shows s.node_ids s.applied_isolations s.declared_partitions)
unfolding commit_pending set_declared_partitions
second_apply-misleads w x y isolate majority n none_asked marked others held seen =
    rw (apply-partitioned w none_asked marked others)
      (still, second_group-misleads w.state.node_ids _ (x ∷ isolate) (y ∷ majority) n still seen)
  where
    still : has n (add_all w.state.pending_isolations w.state.applied_isolations) ≡ true
    still =
        rw (has-add_all n w.state.pending_isolations w.state.applied_isolations, held)
          (or_true (has n w.state.pending_isolations))

late_mark-partitioned :
    (w : World) {x y : String} {isolate majority : List String} (z : String)
    → w.requests ≡ []
    → w.state.pending_isolations ≡ x ∷ isolate
    → majority_of w.state ≡ y ∷ majority
    → has z w.state.applied_isolations ≡ false
    → (run w (press_apply ∷ press_isolate z ∷ answers 0 true ∷ [])).state
      ≡ partitioned (x ∷ isolate) (y ∷ majority) (toggle_pending_isolation z w.state)
unfolding act run answered click_isolate answer
late_mark-partitioned w {x} {y} {isolate} {majority} z none_asked marked others free =
    rw (click_apply-ask w marked others, free)
      (ap (λ u. u.state)
        (answer-ask (partition (x ∷ isolate) (y ∷ majority)) true
          (with_state (toggle_pending_isolation z) w) none_asked))

-- Where no request is under way, a node that is marked while the broker is at work on a partition
-- counts as isolated after the answer, though the broker was asked to leave it with the others,
-- and the banner does not show the isolated nodes.
pub late_mark-misleads :
    (w : World) (x y : String) (isolate majority : List String) (z : String)
    → w.requests ≡ []
    → w.state.pending_isolations ≡ x ∷ isolate
    → majority_of w.state ≡ y ∷ majority
    → has z w.state.applied_isolations ≡ false
    → has z w.state.pending_isolations ≡ false
    → has z w.state.node_ids ≡ true
    → let s = (run w (press_apply ∷ press_isolate z ∷ answers 0 true ∷ [])).state in
      (has z s.applied_isolations ≡ true)
      × (has z (y ∷ majority) ≡ true)
      × (¬ Shows s.node_ids s.applied_isolations s.declared_partitions)
unfolding commit_pending set_declared_partitions toggle_pending_isolation
late_mark-misleads w x y isolate majority z none_asked marked others free unmarked known =
    rw (late_mark-partitioned w z none_asked marked others free) (
      now_held,
      others_have,
      second_group-misleads w.state.node_ids _ (x ∷ isolate) (y ∷ majority) z now_held others_have,
    )
  where
    others_have : has z (y ∷ majority) ≡ true
    others_have = rw (
      ← others,
      has-select (λ m. not (has m w.state.pending_isolations)) z w.state.node_ids,
      unmarked,
      known,
    )

    after : List String
    after = (toggle_pending_isolation z w.state).pending_isolations

    now_held : has z (add_all after w.state.applied_isolations) ≡ true
    now_held =
        rw (has-add_all z after w.state.applied_isolations)
          (rw (has-toggle z z w.state.pending_isolations, beq_refl z, unmarked))
