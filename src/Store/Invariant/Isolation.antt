-- ===== src/Store/Invariant/Isolation.antt =====
-- What the operations on declared partitions and isolated nodes keep.
use atividade_consenso_raft.Base.{
  String, string_eq, nat_eq, option_eq, false, ◌&&◌, List, ◌≡◌, refl, Distinct, Distinct-add,
  Distinct-delete, Distinct-add_all, has, add, delete, has-delete, arith, if◌then◌else◌,
}
use atividade_consenso_raft.Store.State.{State}
use atividade_consenso_raft.Store.Isolation.{
  set_declared_partitions, clear_declared_partitions, toggle_pending_isolation, commit_pending,
  release_applied,
}
use atividade_consenso_raft.Store.Isolation.Spec.{has-toggle}
use atividade_consenso_raft.Store.Invariant.{IsValid}

pub set_declared_partitions-IsValid :
    (groups : List (List String)) (s : State)
    → IsValid s
    → IsValid (set_declared_partitions groups s)
unfolding set_declared_partitions
set_declared_partitions-IsValid groups s v = v

pub clear_declared_partitions-IsValid :
    (s : State) → IsValid s → IsValid (clear_declared_partitions s)
unfolding clear_declared_partitions has
clear_declared_partitions-IsValid s v = record {
  covered = v.covered;
  logged = v.logged;
  marked_once = tt;
  isolated_once = tt;
  apart = λ n. refl;
}

-- Only a node that is not isolated may be marked.
pub toggle_pending_isolation-IsValid :
    (id : String) (s : State)
    → has id s.applied_isolations ≡ false
    → IsValid s
    → IsValid (toggle_pending_isolation id s)
unfolding toggle_pending_isolation
toggle_pending_isolation-IsValid id s free v = record {
  covered = v.covered;
  logged = v.logged;
  marked_once = toggled;
  isolated_once = v.isolated_once;
  apart = apart;
}
  where
    toggled : Distinct (
        if has id s.pending_isolations
        then delete id s.pending_isolations
        else add id s.pending_isolations)
    toggled = ground (
      arith,
      Distinct-delete id s.pending_isolations v.marked_once,
      Distinct-add id s.pending_isolations v.marked_once,
    )

    apart :
        (n : String)
        → (has n (
              if has id s.pending_isolations
              then delete id s.pending_isolations
              else add id s.pending_isolations)
            && has n s.applied_isolations)
          ≡ false
    apart n =
        ground (arith, has-toggle id n s.pending_isolations, string_eq.test_iff id n, v.apart n)

pub commit_pending-IsValid : (s : State) → IsValid s → IsValid (commit_pending s)
unfolding commit_pending has
commit_pending-IsValid s v = record {
  covered = v.covered;
  logged = v.logged;
  marked_once = tt;
  isolated_once = Distinct-add_all s.pending_isolations s.applied_isolations v.isolated_once;
  apart = λ n. refl;
}

pub release_applied-IsValid : (id : String) (s : State) → IsValid s → IsValid (release_applied id s)
unfolding release_applied
release_applied-IsValid id s v = record {
  covered = v.covered;
  logged = v.logged;
  marked_once = v.marked_once;
  isolated_once = Distinct-delete id s.applied_isolations v.isolated_once;
  apart = apart;
}
  where
    apart :
        (n : String)
        → (has n s.pending_isolations && has n (delete id s.applied_isolations)) ≡ false
    apart n = ground (arith, has-delete id n s.applied_isolations, v.apart n)
