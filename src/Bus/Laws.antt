-- ===== src/Bus/Laws.antt =====
-- Registration and delivery on the bus.
use atividade_consenso_raft.Base.{
  list_laws, ℕ, nat_eq, String, string_eq, true, false, List, [], ◌∷◌, ◌++◌, ◌≡◌, refl, ap, sym,
  ◌∙◌, inl, inr, get?, get?-insert, map, append_assoc, append-nil, if◌then◌else◌, ◌==◌, beq_refl,
  or_default, arith, Bool-cases,
}
use atividade_consenso_raft.Event.{Event}
use atividade_consenso_raft.Bus.{
  Outcome, returned, threw, Handler, Bus, holds, add_handler, delete_handler, handlers_of, on, off,
  note, call_each, dispatch,
}

abbrev pub thrown : Outcome → ℕ → List ℕ
thrown returned id = []
thrown threw id = id ∷ []

note-thrown : (id : ℕ) (o : Outcome) (errors : List ℕ) → note id o errors ≡ errors ++ thrown o id
unfolding note
note-thrown id returned errors = sym (append-nil errors)
note-thrown id threw errors = refl

module _ {E S : Type 0} where
  -- The handler without its errors.
  abbrev pub calm : Handler E S → Handler E S
  calm h = record h { run = λ evt s. ((h.run evt s).0, returned) }

  -- The state that the calls leave, one after another, and the handlers that throw on the way.
  abbrev pub effects : List (Handler E S) → E → S → S
  effects [] evt s = s
  effects (h ∷ hs) evt s = effects hs evt (h.run evt s).0

  abbrev pub throwers : List (Handler E S) → E → S → List ℕ
  throwers [] evt s = []
  throwers (h ∷ hs) evt s = thrown (h.run evt s).1 h.id ++ throwers hs evt (h.run evt s).0

  pub call_each_lem :
      (hs : List (Handler E S)) (evt : E) (s : S) (errors : List ℕ)
      → call_each hs evt (s, errors) ≡ (effects hs evt s, errors ++ throwers hs evt s)
  unfolding call_each
  call_each_lem [] evt s errors = simp list_laws
  call_each_lem (h ∷ hs) evt s errors = rw (
    note-thrown h.id (h.run evt s).1 errors,
    call_each_lem hs evt (h.run evt s).0 (errors ++ thrown (h.run evt s).1 h.id),
    append_assoc,
  )

  pub effects-calm :
      (hs : List (Handler E S)) (evt : E) (s : S) → effects (map calm hs) evt s ≡ effects hs evt s
  effects-calm [] evt s = refl
  effects-calm (h ∷ hs) evt s = effects-calm hs evt (h.run evt s).0

  effects-append :
      (hs ks : List (Handler E S)) (evt : E) (s : S)
      → effects (hs ++ ks) evt s ≡ effects ks evt (effects hs evt s)
  effects-append [] ks evt s = refl
  effects-append (h ∷ hs) ks evt s = effects-append hs ks evt (h.run evt s).0

  throwers-append :
      (hs ks : List (Handler E S)) (evt : E) (s : S)
      → throwers (hs ++ ks) evt s ≡ throwers hs evt s ++ throwers ks evt (effects hs evt s)
  throwers-append [] ks evt s = refl
  throwers-append (h ∷ hs) ks evt s = simp (throwers-append hs ks evt (h.run evt s).0, list_laws)

  delete-fresh :
      (id : ℕ) (hs : List (Handler E S)) → holds id hs ≡ false → delete_handler id hs ≡ hs
  unfolding delete_handler holds
  delete-fresh id [] h = refl
  delete-fresh id (k ∷ hs) h = ground (arith, delete-fresh id hs)

  delete-append :
      (id : ℕ) (hs ks : List (Handler E S))
      → delete_handler id (hs ++ ks) ≡ delete_handler id hs ++ delete_handler id ks
  unfolding delete_handler
  delete-append id [] ks = refl
  delete-append id (h ∷ hs) ks = ground (arith, delete-append id hs ks)

  delete-single : (h : Handler E S) → delete_handler h.id (h ∷ []) ≡ []
  unfolding delete_handler
  delete-single h = rw (beq_refl h.id)

  pub delete-add :
      (h : Handler E S) (hs : List (Handler E S))
      → holds h.id hs ≡ false
      → delete_handler h.id (add_handler h hs) ≡ hs
  unfolding add_handler
  delete-add h hs fresh = rw fresh (
      delete-append h.id hs (h ∷ [])
      ∙ rw (delete-fresh h.id hs fresh) (rw (delete-single h) (append-nil hs)))

  holds-snoc : (h : Handler E S) (hs : List (Handler E S)) → holds h.id (hs ++ h ∷ []) ≡ true
  unfolding holds
  holds-snoc h [] = rw (beq_refl h.id)
  holds-snoc h (k ∷ hs) = ground (arith, holds-snoc h hs)

  holds-add : (h : Handler E S) (hs : List (Handler E S)) → holds h.id (add_handler h hs) ≡ true
  unfolding add_handler
  holds-add h hs = elim (Bool-cases (holds h.id hs)) [
    | inl old ↦ rw old old
    | inr new ↦ rw new (holds-snoc h hs)
  ]

  add-add :
      (h : Handler E S) (hs : List (Handler E S))
      → add_handler h (add_handler h hs) ≡ add_handler h hs
  unfolding add_handler
  add-add h hs = ground (arith, holds-add h hs)

module _ {S : Type 0} where
  -- An event reaches every handler of its type and then every general one, in the order of their
  -- registration. What each of them does is done, whichever of them throw, as if none had; the
  -- errors that are logged are those of the handlers that threw, in order.
  pub dispatch_isolated :
      (bus : Bus S) (evt : Event) (s : S)
      → let hs = handlers_of evt.type bus ++ bus.any_handlers in
        ((dispatch bus evt s).0 ≡ effects (map calm hs) evt s)
        × ((dispatch bus evt s).1 ≡ throwers hs evt s)
  unfolding dispatch
  dispatch_isolated bus evt s =
      (ap (λ r. r.0) all ∙ sym (effects-calm (hs ++ bus.any_handlers) evt s), ap (λ r. r.1) all)
    where
      hs : List (Handler Event S)
      hs = handlers_of evt.type bus

      all :
          dispatch bus evt s
          ≡ (effects (hs ++ bus.any_handlers) evt s, throwers (hs ++ bus.any_handlers) evt s)
      all =
          ap (call_each bus.any_handlers evt) (call_each_lem hs evt s [])
          ∙ call_each_lem bus.any_handlers evt (effects hs evt s) (throwers hs evt s)
          ∙ rw (effects-append hs bus.any_handlers evt s, throwers-append hs bus.any_handlers evt s)

  pub handlers_of-on :
      (type t : String) (h : Handler Event S) (bus : Bus S)
      → handlers_of t (on type h bus)
        ≡ (if type == t then add_handler h (handlers_of type bus) else handlers_of t bus)
  unfolding handlers_of on
  handlers_of-on type t h bus = ground (
    arith,
    get?-insert type t (add_handler h (or_default (get? type bus.by_type) [])) bus.by_type,
  )

  handlers_of-off :
      (type t : String) (id : ℕ) (bus : Bus S)
      → handlers_of t (off type id bus)
        ≡ (if type == t then delete_handler id (handlers_of type bus) else handlers_of t bus)
  unfolding handlers_of off
  handlers_of-off type t id bus = ground (
    arith,
    get?-insert type t (delete_handler id (or_default (get? type bus.by_type) [])) bus.by_type,
  )

  -- Registering a new handler and calling the function that `on` returns leaves every type with the
  -- handlers that it had.
  pub off-on :
      (type t : String) (h : Handler Event S) (bus : Bus S)
      → holds h.id (handlers_of type bus) ≡ false
      → handlers_of t (off type h.id (on type h bus)) ≡ handlers_of t bus
  off-on type t h bus fresh = ground (
    arith,
    handlers_of-off type t h.id (on type h bus),
    handlers_of-on type type h bus,
    handlers_of-on type t h bus,
    delete-add h (handlers_of type bus),
    string_eq.test_iff type t,
    string_eq.test_iff type type,
  )

  -- Registering a handler twice is registering it once.
  pub on-on :
      (type t : String) (h : Handler Event S) (bus : Bus S)
      → handlers_of t (on type h (on type h bus)) ≡ handlers_of t (on type h bus)
  on-on type t h bus = ground (
    arith,
    handlers_of-on type t h (on type h bus),
    handlers_of-on type type h bus,
    handlers_of-on type t h bus,
    add-add h (handlers_of type bus),
    string_eq.test_iff type t,
    string_eq.test_iff type type,
  )
