-- ===== src/Store/Subscribers.antt =====
-- subscribe, update and notify of infra/dashboard/js/store.js. `V` is what the subscribers draw, and a
-- subscriber a handler that is called with the state.
pub mod Notices
use atividade_consenso_raft.Base.{ℕ, List, []}
use atividade_consenso_raft.Bus.{Handler, Outcome, call_each, add_handler, delete_handler}
use atividade_consenso_raft.Store.State.{State}

pub record Live (V : Type 0) : Type 0 where
  pub state : State
  pub subs : List (Handler State V)
  pub view : V

module _ {V : Type 0} where
  -- The numbers are those of the subscribers that threw.
  unfoldable pub notify : Live V → Live V × List ℕ
  unfolding call_each
  notify l =
      let (view, errors) = call_each l.subs l.state (l.view, []) in
      (record l { view = view }, errors)

  unfoldable pub update : (State → State) → Live V → Live V × List ℕ
  unfolding notify
  update mutator l = notify (record l { state = mutator l.state })

  -- The first call is not guarded: what it throws goes to the caller.
  unfoldable pub subscribe : Handler State V → Live V → Live V × Outcome
  unfolding add_handler
  subscribe fn l =
      let (view, outcome) = fn.run l.state l.view in
      (record l { subs = add_handler fn l.subs; view = view }, outcome)

  -- The function that `subscribe` returns.
  unfoldable pub unsubscribe : ℕ → Live V → Live V
  unfolding delete_handler
  unsubscribe id l = record l { subs = delete_handler id l.subs }
