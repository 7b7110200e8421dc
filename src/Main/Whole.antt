-- ===== src/Main/Whole.antt =====
-- The bus of infra/dashboard/js/main.js with all that listens to it: the handlers of the store, and the
-- stream, which eventStreamView.js mounts for events of every type.
pub mod Both
use atividade_consenso_raft.Base.{ℕ, String, List, [], ◌∷◌, map}
use atividade_consenso_raft.Bus.{Handler, Bus, returned, on_any, dispatch}
use atividade_consenso_raft.Event.{Event}
use atividade_consenso_raft.World.{World}
use atividade_consenso_raft.Main.{wired}
use atividade_consenso_raft.Views.Stream.{Stream, show_event}

-- The store with its page, and the lines of the stream.
pub record Whole : Type 0 where
  pub world : World
  pub stream : Stream

-- A handler of the store leaves the stream alone.
abbrev pub on_world : Handler Event World → Handler Event Whole
on_world h = record {
  id = h.id;
  run = λ e p. let (w, outcome) = h.run e p.world in (record p { world = w }, outcome);
}

abbrev pub bus_of_world : Bus World → Bus Whole
bus_of_world bus = record {
  by_type = map (λ entry. (entry.0, map on_world entry.1)) bus.by_type;
  any_handlers = map on_world bus.any_handlers;
}

-- `bus.onAny(…)` of the stream
abbrev pub stream_handler : Handler Event Whole
stream_handler = record {
  id = 10;
  run = λ e p. (record p { stream = show_event e p.stream }, returned);
}

unfoldable pub whole_bus : Bus Whole
unfolding on_any wired
whole_bus = on_any stream_handler (bus_of_world wired)

unfoldable pub deliver_all : List Event → Whole → Whole
unfolding dispatch whole_bus
deliver_all [] p = p
deliver_all (e ∷ events) p = deliver_all events (dispatch whole_bus e p).0
