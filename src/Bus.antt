-- ===== src/Bus.antt =====
-- infra/dashboard/js/eventBus.js. A handler is known by its number, as a function is by its
-- reference; it changes a state `S` of its own, and may throw after that.
pub mod Laws
use atividade_consenso_raft.Base.{
  or_default, ℕ, nat_eq, ◌==◌, not, String, string_eq, Bool, true, false, none, some, Option, Map,
  List, [], ◌∷◌, ◌++◌, get?, insert, select, if◌then◌else◌,
}
use atividade_consenso_raft.Event.{Event}

pub data Outcome : Type 0 where
  returned threw : Outcome

pub record Handler (E S : Type 0) : Type 0 where
  pub id : ℕ
  pub run : E → S → S × Outcome

pub record Bus (S : Type 0) : Type 0 where
  pub by_type : Map String (List (Handler Event S))
  pub any_handlers : List (Handler Event S)

-- `try { h(evt) } catch { console.error(…) }`: the numbers of the handlers that threw.
unfoldable pub note : ℕ → Outcome → List ℕ → List ℕ
note id returned errors = errors
note id threw errors = errors ++ id ∷ []

-- The handlers of one set; `E` is what they are called with.
module _ {E S : Type 0} where
  -- `Set.add` and `Set.delete` of a handler
  unfoldable pub holds : ℕ → List (Handler E S) → Bool
  holds id [] = false
  holds id (h ∷ hs) = if h.id == id then true else holds id hs

  unfoldable pub add_handler : Handler E S → List (Handler E S) → List (Handler E S)
  unfolding holds
  add_handler h hs = if holds h.id hs then hs else hs ++ h ∷ []

  unfoldable pub delete_handler : ℕ → List (Handler E S) → List (Handler E S)
  delete_handler id hs = select (λ h. not (h.id == id)) hs

  unfoldable pub call_each : List (Handler E S) → E → S × List ℕ → S × List ℕ
  unfolding note
  call_each [] evt r = r
  call_each (h ∷ hs) evt (s, errors) =
      let (s', outcome) = h.run evt s in call_each hs evt (s', note h.id outcome errors)

module _ {S : Type 0} where
  unfoldable pub create_bus : Bus S
  create_bus = record { by_type = []; any_handlers = [] }

  unfoldable pub handlers_of : String → Bus S → List (Handler Event S)
  handlers_of type bus = or_default (get? type bus.by_type) []

  unfoldable pub on : String → Handler Event S → Bus S → Bus S
  unfolding add_handler handlers_of
  on type h bus = record bus {
    by_type = insert type (add_handler h (handlers_of type bus)) bus.by_type;
  }

  -- The function that `on` returns.
  unfoldable pub off : String → ℕ → Bus S → Bus S
  unfolding delete_handler handlers_of
  off type id bus = record bus {
    by_type = insert type (delete_handler id (handlers_of type bus)) bus.by_type;
  }

  unfoldable pub on_any : Handler Event S → Bus S → Bus S
  unfolding add_handler
  on_any h bus = record bus { any_handlers = add_handler h bus.any_handlers }

  -- The function that `onAny` returns.
  unfoldable pub off_any : ℕ → Bus S → Bus S
  unfolding delete_handler
  off_any id bus = record bus { any_handlers = delete_handler id bus.any_handlers }

  unfoldable pub dispatch : Bus S → Event → S → S × List ℕ
  unfolding call_each handlers_of
  dispatch bus evt s =
      call_each bus.any_handlers evt (call_each (handlers_of evt.type bus) evt (s, []))
