-- ===== src/Main/Routing.antt =====
-- What the wiring of main.js amounts to: one handler for each type of event.
use atividade_consenso_raft.Base.{
  String, string_eq, List, has, Distinct, map, ◌==◌, ◌≡◌, [], ◌∷◌, refl, ap, ◌∙◌, get?,
  if◌then◌else◌, arith, if_case, Bool-cases, inl, inr, false,
}
use atividade_consenso_raft.Event.{Event}
use atividade_consenso_raft.Bus.{
  Bus, Handler, dispatch, handlers_of, on, holds, add_handler, create_bus, call_each,
}
use atividade_consenso_raft.Bus.Laws.{handlers_of-on}
use atividade_consenso_raft.World.{World}
use atividade_consenso_raft.Handlers.{
  on_state, on_role_change, on_leader_change, on_peer_change, on_apply, on_log_entry,
  on_replication,
}
use atividade_consenso_raft.Handlers.Rpc.{on_rpc_send, on_rpc_resp, on_rpc_recv}
use atividade_consenso_raft.Main.{handler, deliver}

-- The handler that an event's type selects; other types are ignored.
abbrev pub handle : Event → World → World
handle e w =
    if "log_entry" == e.type
    then on_log_entry e w
    else if "replication" == e.type
    then on_replication e w
    else if "apply" == e.type
    then on_apply e w
    else if "rpc_recv" == e.type
    then on_rpc_recv e w
    else if "rpc_resp" == e.type
    then on_rpc_resp e w
    else if "rpc_send" == e.type
    then on_rpc_send e w
    else if "peer_change" == e.type
    then on_peer_change e w
    else if "leader_change" == e.type
    then on_leader_change e w
    else if "role_change" == e.type
    then on_role_change e w
    else if "state" == e.type
    then on_state e w
    else w

handlers_of-fresh :
    (type t : String) (h : Handler Event World) (bus : Bus World)
    → handlers_of type bus ≡ []
    → handlers_of t (on type h bus) ≡ (if type == t then h ∷ [] else handlers_of t bus)
unfolding add_handler holds
handlers_of-fresh type t h bus fresh = rw (handlers_of-on type t h bus, fresh)

-- A handler of a type that had none: it gets the events of its type, and the others go on as before.
dispatch-on :
    (type : String) (h : Handler Event World) (bus : Bus World) (e : Event) (w : World)
    {rest : World}
    → handlers_of type bus ≡ []
    → bus.any_handlers ≡ []
    → (dispatch bus e w).0 ≡ rest
    → (dispatch (on type h bus) e w).0 ≡ (if type == e.type then (h.run e w).0 else rest)
unfolding dispatch on
dispatch-on type h bus e w {rest} fresh none_general after =
    ap (λ hs. (call_each bus.any_handlers e (call_each hs e (w, []))).0)
      (handlers_of-fresh type e.type h bus fresh)
    ∙ elim (Bool-cases (type == e.type)) [
      | inl hit ↦ rw (hit, none_general)
      | inr miss ↦ rw miss after
    ]

-- The bus after registrations, the last one first, and the handler among them that an event selects.
abbrev after_all : List (String × Handler Event World) → Bus World
after_all [] = create_bus
after_all ((type, h) ∷ rs) = on type h (after_all rs)

abbrev select_handler : List (String × Handler Event World) → Event → World → World
select_handler [] e w = w
select_handler ((type, h) ∷ rs) e w =
    if type == e.type then (h.run e w).0 else select_handler rs e w

abbrev types : List (String × Handler Event World) → List String
types = map (λ r. r.0)

unregistered :
    (type : String) (rs : List (String × Handler Event World))
    → Distinct (types rs)
    → has type (types rs) ≡ false
    → handlers_of type (after_all rs) ≡ []
unfolding handlers_of create_bus get? has
unregistered type [] d h = refl
unregistered type ((t, k) ∷ rs) d h =
    handlers_of-fresh t type k (after_all rs) (unregistered t rs d.1 d.0)
    ∙ rw (other) (unregistered type rs d.1 (ground arith))
  where
    other : (t == type) ≡ false
    other = ground arith

no_general : (rs : List (String × Handler Event World)) → (after_all rs).any_handlers ≡ []
unfolding create_bus on
no_general [] = refl
no_general (r ∷ rs) = no_general rs

dispatch-after_all :
    (rs : List (String × Handler Event World)) (e : Event) (w : World)
    → Distinct (types rs)
    → (dispatch (after_all rs) e w).0 ≡ select_handler rs e w
unfolding dispatch create_bus get?
dispatch-after_all [] e w d = refl
dispatch-after_all ((type, h) ∷ rs) e w d =
    dispatch-on type h (after_all rs) e w (unregistered type rs d.1 d.0) (no_general rs)
      (dispatch-after_all rs e w d.1)

abbrev registrations : List (String × Handler Event World)
registrations =
    ("log_entry", handler 9 on_log_entry)
    ∷ ("replication", handler 8 on_replication)
    ∷ ("apply", handler 7 on_apply)
    ∷ ("rpc_recv", handler 6 on_rpc_recv)
    ∷ ("rpc_resp", handler 5 on_rpc_resp)
    ∷ ("rpc_send", handler 4 on_rpc_send)
    ∷ ("peer_change", handler 3 on_peer_change)
    ∷ ("leader_change", handler 2 on_leader_change)
    ∷ ("role_change", handler 1 on_role_change)
    ∷ ("state", handler 0 on_state)
    ∷ []

-- The handlers that main.js registers give each event to the one handler of its type, and other
-- events to none.
pub deliver-eq-handle : (e : Event) (w : World) → deliver e w ≡ handle e w
unfolding deliver has
deliver-eq-handle e w =
    dispatch-after_all registrations e w
      (refl, (refl, (refl, (refl, (refl, (refl, (refl, (refl, (refl, (refl, tt))))))))))

-- A property that every handler keeps is kept by every event.
pub deliver_cases {κ} :
    (P : World → Type κ) (e : Event) (w : World)
    → P w
    → P (on_state e w)
    → P (on_role_change e w)
    → P (on_leader_change e w)
    → P (on_rpc_send e w)
    → P (on_rpc_resp e w)
    → P (on_apply e w)
    → P (on_replication e w)
    → P (on_log_entry e w)
    → P (deliver e w)
unfolding on_peer_change on_rpc_recv
deliver_cases P e w same st role lead send resp app repl log = rw (deliver-eq-handle e w) (
    if_case P ("log_entry" == e.type) log (
      if_case P ("replication" == e.type) repl (
        if_case P ("apply" == e.type) app (
          if_case P ("rpc_recv" == e.type) same (
            if_case P ("rpc_resp" == e.type) resp (
              if_case P ("rpc_send" == e.type) send (
                if_case P ("peer_change" == e.type) same (
                  if_case P ("leader_change" == e.type) lead (
                    if_case P ("role_change" == e.type) role
                      (if_case P ("state" == e.type) st same))))))))))
