-- ===== src/Main/Whole/Both.antt =====
-- An event reaches the store and the stream.
use atividade_consenso_raft.Base.{
  ℕ, nat_eq, String, string_eq, ◌==◌, List, [], ◌∷◌, Map, map, get?, or_default, ◌≡◌, refl, ap, ◌∙◌,
  inl, inr, Bool-cases, ◌≤◌, length, select, arith,
}
use atividade_consenso_raft.Bus.{
  Handler, Bus, note, call_each, handlers_of, dispatch, on_any, add_handler, holds, create_bus, on,
}
use atividade_consenso_raft.Event.{Event}
use atividade_consenso_raft.World.{World}
use atividade_consenso_raft.Main.{wired, deliver}
use atividade_consenso_raft.Main.Routing.{handle, deliver-eq-handle}
use atividade_consenso_raft.Config.{stream_window}
use atividade_consenso_raft.Views.Filters.{compose_filters}
use atividade_consenso_raft.Views.Stream.{Stream, show_event, show_all}
use atividade_consenso_raft.Views.Stream.Window.{take, rev_onto, show_all_lem}
use atividade_consenso_raft.Main.Whole.{
  Whole, on_world, bus_of_world, stream_handler, whole_bus, deliver_all,
}

call_each-on_world :
    (hs : List (Handler Event World)) (e : Event) (p : Whole) (errors : List ℕ)
    → call_each (map on_world hs) e (p, errors) ≡ (
      record p { world = (call_each hs e (p.world, errors)).0 },
      (call_each hs e (p.world, errors)).1,
    )
unfolding call_each
call_each-on_world [] e p errors = refl
call_each-on_world (h ∷ hs) e p errors =
    call_each-on_world hs e (record p { world = (h.run e p.world).0 })
      (note h.id (h.run e p.world).1 errors)

handlers_in :
    (type : String) (m : Map String (List (Handler Event World)))
    → or_default (get? type (map (λ entry. (entry.0, map on_world entry.1)) m)) []
      ≡ map on_world (or_default (get? type m) [])
unfolding get?
handlers_in type [] = refl
handlers_in type ((t, hs) ∷ m) = elim (Bool-cases (t == type)) [
  | inl hit ↦ rw hit refl
  | inr miss ↦ rw miss (handlers_in type m)
]

handlers_of-bus_of_world :
    (type : String) (bus : Bus World)
    → handlers_of type (bus_of_world bus) ≡ map on_world (handlers_of type bus)
unfolding handlers_of
handlers_of-bus_of_world type bus = handlers_in type bus.by_type

after_handlers :
    (e : Event) (p : Whole)
    → call_each (handlers_of e.type (bus_of_world wired)) e (p, []) ≡ (
      record p { world = deliver e p.world },
      (call_each (handlers_of e.type wired) e (p.world, [])).1,
    )
unfolding deliver dispatch call_each wired on create_bus
after_handlers e p =
    ap (λ hs. call_each hs e (p, [])) (handlers_of-bus_of_world e.type wired)
    ∙ call_each-on_world (handlers_of e.type wired) e p []

deliver_each :
    (e : Event) (p : Whole)
    → (dispatch whole_bus e p).0
      ≡ record { world = deliver e p.world; stream = show_event e p.stream }
unfolding dispatch whole_bus on_any add_handler holds wired on create_bus call_each handlers_of
deliver_each e p = ap (λ r. (call_each (stream_handler ∷ []) e r).0) (after_handlers e p)

abbrev pub deliver_list : List Event → World → World
deliver_list [] w = w
deliver_list (e ∷ events) w = deliver_list events (deliver e w)

-- One event after the other, each to the one handler of its type.
abbrev pub handle_all : List Event → World → World
handle_all [] w = w
handle_all (e ∷ events) w = handle_all events (handle e w)

deliver_list-eq : (events : List Event) (w : World) → deliver_list events w ≡ handle_all events w
deliver_list-eq [] w = refl
deliver_list-eq (e ∷ events) w =
    deliver_list-eq events (deliver e w) ∙ ap (handle_all events) (deliver-eq-handle e w)

active-show_all : (events : List Event) (s : Stream) → (show_all events s).active ≡ s.active
unfolding show_all show_event
active-show_all [] s = refl
active-show_all (e ∷ events) s = active-show_all events (show_event e s) ∙ ground arith

deliver_each_all :
    (events : List Event) (p : Whole)
    → deliver_all events p
      ≡ record { world = deliver_list events p.world; stream = show_all events p.stream }
unfolding deliver_all show_all
deliver_each_all [] p = refl
deliver_each_all (e ∷ events) p =
    ap (deliver_all events) (deliver_each e p)
    ∙ deliver_each_all events (record { world = deliver e p.world; stream = show_event e p.stream })

-- After the bus has dispatched any events, each has been taken by the handler of its type, and by no
-- other, in order, and an event of another type by none; and the stream, if it had at most 80 lines,
-- has, newest first, the newest 80 of the events that pass its filters and of the lines that it had,
-- with the same filters.
pub deliver_all_lem :
    (events : List Event) (p : Whole)
    → length p.stream.lines ≤ stream_window
    → let p' = deliver_all events p in
      (p'.world ≡ handle_all events p.world)
      × (p'.stream.lines
          ≡ take stream_window
              (rev_onto (select (compose_filters p.stream.active) events) p.stream.lines))
      × (p'.stream.active ≡ p.stream.active)
deliver_all_lem events p short = rw (deliver_each_all events p) (
  deliver_list-eq events p.world,
  show_all_lem events p.stream short,
  active-show_all events p.stream,
)
