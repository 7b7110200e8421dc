-- ===== src/Store/Subscribers/Notices.antt =====
-- What the subscribers of the store are told.
use atividade_consenso_raft.Base.{nat_eq, false, [], ◌≡◌, refl, ap, sym, ◌∙◌, map}
use atividade_consenso_raft.Bus.{Handler, holds}
use atividade_consenso_raft.Bus.Laws.{
  call_each_lem, effects, throwers, calm, effects-calm, delete-add,
}
use atividade_consenso_raft.Store.State.{State}
use atividade_consenso_raft.Store.Subscribers.{Live, update, subscribe, unsubscribe}

module _ {V : Type 0} where
  -- An update tells every subscriber the new state, in the order of their subscription. What each of
  -- them draws is drawn, whichever of them throw, as if none had; the errors that are logged are those
  -- of the subscribers that threw, in order, and all stay subscribed.
  pub update_isolated :
      (mutator : State → State) (l : Live V)
      → ((update mutator l).0.state ≡ mutator l.state)
        × ((update mutator l).0.subs ≡ l.subs)
        × ((update mutator l).0.view ≡ effects (map calm l.subs) (mutator l.state) l.view)
        × ((update mutator l).1 ≡ throwers l.subs (mutator l.state) l.view)
  unfolding update
  update_isolated mutator l =
      let told = call_each_lem l.subs (mutator l.state) l.view [] in
      (
        refl,
        refl,
        ap (λ r. r.0) told ∙ sym (effects-calm l.subs (mutator l.state) l.view),
        ap (λ r. r.1) told,
      )

  -- A new subscription that is taken back leaves the state and the subscribers as they were.
  pub unsubscribe-subscribe :
      (fn : Handler State V) (l : Live V)
      → holds fn.id l.subs ≡ false
      → ((unsubscribe fn.id (subscribe fn l).0).subs ≡ l.subs)
        × ((unsubscribe fn.id (subscribe fn l).0).state ≡ l.state)
  unfolding unsubscribe subscribe
  unsubscribe-subscribe fn l fresh = (delete-add fn l.subs fresh, refl)
