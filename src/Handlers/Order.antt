-- ===== src/Handlers/Order.antt =====
-- applyHandler.js and logEntryHandler.js on the two messages that bring one entry.
use atividade_consenso_raft.Base.{true, false, ◌≡◌, ap}
use atividade_consenso_raft.Event.{Event, is_text, is_positive, prop_key}
use atividade_consenso_raft.Store.Logs.{append_log}
use atividade_consenso_raft.Store.Logs.Window.{LogIsValid}
use atividade_consenso_raft.Store.Logs.Commit.{log_of}
use atividade_consenso_raft.Store.Logs.Order.{append_log-swap}
use atividade_consenso_raft.World.{World, with_state}
use atividade_consenso_raft.Handlers.{on_apply, on_log_entry, entry_of}

on_log_entry-accepted :
    (l : Event) (w : World)
    → is_text l.to ≡ true
    → is_positive l.index ≡ true
    → on_log_entry l w ≡ with_state (append_log (prop_key l.to) (entry_of l false) w.date_now) w
unfolding on_log_entry
on_log_entry-accepted l w named numbered = rw (named, numbered)

-- An apply of a node and a log_entry sent to it, with a positive index, that bring one entry
-- leave the same page whichever of the two comes first, if they come at one reading of the clock,
-- and the node's log is no longer than the window and has no index twice.
pub on_apply-on_log_entry :
    (a l : Event) (w : World)
    → is_text l.to ≡ true
    → is_positive l.index ≡ true
    → a.node ≡ l.to
    → entry_of a false ≡ entry_of l false
    → LogIsValid (log_of (prop_key l.to) w.state)
    → on_log_entry l (on_apply a w) ≡ on_apply a (on_log_entry l w)
unfolding on_apply
on_apply-on_log_entry a l w named numbered at same v =
    rw
      (
        on_log_entry-accepted l (on_apply a w) named numbered,
        on_log_entry-accepted l w named numbered,
        at,
      )
      (ap (λ s. record w { state = s }) swapped)
  where
    swapped :
        append_log
          (prop_key l.to)
          (entry_of l false)
          w.date_now
          (append_log (prop_key l.to) (entry_of a true) w.date_now w.state)
        ≡ append_log
            (prop_key l.to)
            (entry_of a true)
            w.date_now
            (append_log (prop_key l.to) (entry_of l false) w.date_now w.state)
    swapped = rw (← same) (append_log-swap (prop_key l.to) (entry_of a false) w.date_now w.state v)
