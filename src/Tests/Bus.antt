-- ===== src/Tests/Bus.antt =====
-- The theorems on the bus at concrete inputs.
use atividade_consenso_raft.Base.{
  ℕ, suc, ◌+◌, string_eq, nat_eq, [], ◌∷◌, ◌++◌, ◌≡◌, refl, map, get?, insert,
}
use atividade_consenso_raft.Event.{Event}
use atividade_consenso_raft.Store.State.{State}
use atividade_consenso_raft.Store.Subscribers.{Live}
use atividade_consenso_raft.Bus.{
  Bus, Handler, returned, threw, create_bus, on, on_any, dispatch, handlers_of,
}
use atividade_consenso_raft.Bus.Laws.{effects, throwers, calm, dispatch_isolated}
use atividade_consenso_raft.Tests.Data.{node1_page, apply_event}

-- It counts, and throws.
abbrev counting : Handler Event ℕ
counting = record { id = 1; run = λ e n. (suc n, threw) }

abbrev doubling : Handler Event ℕ
doubling = record { id = 2; run = λ e n. (n + n, returned) }

abbrev busy : Bus ℕ
busy = on_any doubling (on "apply" doubling (on "apply" counting create_bus))

dispatch_isolated_example :
    let hs = handlers_of "apply" busy ++ busy.any_handlers in
    ((dispatch busy apply_event 5).0 ≡ effects (map calm hs) apply_event 5)
    × ((dispatch busy apply_event 5).1 ≡ throwers hs apply_event 5)
dispatch_isolated_example = dispatch_isolated busy apply_event 5

dispatch_run : dispatch busy apply_event 5 ≡ (24, 1 ∷ [])
unfolding dispatch on on_any create_bus get? insert
dispatch_run = refl

abbrev pub third : Handler Event ℕ
third = record { id = 3; run = λ e n. (0, returned) }

-- A view that counts its calls and throws, and one that shows the heartbeat.
abbrev failing : Handler State ℕ
failing = record { id = 1; run = λ s n. (suc n, threw) }

abbrev showing : Handler State ℕ
showing = record { id = 2; run = λ s n. (n + s.heartbeat_ms, returned) }

abbrev live : Live ℕ
live = record { state = node1_page.state; subs = failing ∷ []; view = 7 }
