-- ===== src/Page/Packets.antt =====
-- Packets and their timers: each packet in flight has one timer, which is set for 50 ms after the
-- end of its animation.
use atividade_consenso_raft.Base.{
  ℕ, suc, ◌+◌, ◌≤◌, String, string_eq, nat_eq, option_eq, false, not, ◌||◌, some, none, List, [],
  ◌∷◌, ◌++◌, ◌≡◌, refl, ap, ap₂, subst, sym, ◌∙◌, inl, inr, All, All-mono, All-append, All-select,
  map, map-append, map-select, select, Distinct, Distinct-snoc, Distinct-select, has, arith,
  Bool-cases, ◌==◌,
}
use atividade_consenso_raft.Event.{Event, is_text}
use atividade_consenso_raft.Store.State.{Packet, State}
use atividade_consenso_raft.Store.Links.{mark_resp_seen, mark_key}
use atividade_consenso_raft.Store.Packets.{record_packet, remove_packet}
use atividade_consenso_raft.World.{World, Timer, fire}
use atividade_consenso_raft.Handlers.Rpc.{launch, on_rpc_send, on_rpc_resp, packet_of}

-- A packet's id and the time at which it goes.
abbrev pub packet_slot : Packet → ℕ × ℕ
packet_slot p = (p.id, p.t_start + (p.duration + 5000))

abbrev pub timer_slot : Timer → ℕ × ℕ
timer_slot t = (t.packet, t.due)

abbrev pub ids : List Packet → List ℕ
ids = map (λ p. p.id)

pub record AreTimed (packets : List Packet) (timers : List Timer) (counter : ℕ) : Type 0 where
  pub timed : map packet_slot packets ≡ map timer_slot timers
  pub counted : All (λ p. p.id ≤ counter) packets
  pub once : Distinct (ids packets)

abbrev pub IsTimed : World → Type 0
IsTimed w = AreTimed w.state.packets w.timers w.packet_counter

unused_id : (k : ℕ) (ps : List Packet) → All (λ p. p.id ≤ k) ps → has (suc k) (ids ps) ≡ false
unfolding has
unused_id k [] v = refl
unused_id k (p ∷ ps) v = ground (arith, unused_id k ps v.1)

pub launch-IsTimed :
    (p : Packet) (w : World)
    → p.id ≡ suc w.packet_counter
    → p.t_start ≡ w.perf_now
    → IsTimed w
    → IsTimed (launch p w)
unfolding launch record_packet
launch-IsTimed p w e f v = record {
  timed =
      rw (map-append, map-append)
        (ap₂ (λ slots t. slots ++ (p.id, t + (p.duration + 5000)) ∷ []) v.timed f);
  counted =
      All-append _ w.state.packets (p ∷ [])
        (All-mono (λ q h. omega arith) w.state.packets v.counted) (omega arith, tt);
  once = rw map-append (
      Distinct-snoc (ids w.state.packets) p.id
        (rw e (unused_id w.packet_counter w.state.packets v.counted)) v.once);
}

pub fire-IsTimed : (id : ℕ) (w : World) → IsTimed w → IsTimed (fire id w)
unfolding fire remove_packet
fire-IsTimed id w v = record {
  timed =
      map-select packet_slot (λ q. not (q.0 == id)) w.state.packets
      ∙ ap (select (λ q. not (q.0 == id))) v.timed
      ∙ sym (map-select timer_slot (λ q. not (q.0 == id)) w.timers);
  counted = All-select _ _ w.state.packets v.counted;
  once =
      subst Distinct (sym (map-select (λ p. p.id) (λ i. not (i == id)) w.state.packets))
        (Distinct-select (λ i. not (i == id)) (ids w.state.packets) v.once);
}

pub on_rpc_send-IsTimed : (e : Event) (w : World) → IsTimed w → IsTimed (on_rpc_send e w)
unfolding on_rpc_send
on_rpc_send-IsTimed e w v = elim (Bool-cases (not (is_text e.from) || not (is_text e.to))) [
  | inl h ↦ rw h v
  | inr h ↦ rw h (launch-IsTimed (packet_of e none none w) w refl refl v)
]

mark_resp_seen-packets :
    (a b : String) (t : ℕ) (s : State) → (mark_resp_seen a b t s).packets ≡ s.packets
unfolding mark_resp_seen mark_key
mark_resp_seen-packets a b t s = ground arith

pub on_rpc_resp-IsTimed : (e : Event) (w : World) → IsTimed w → IsTimed (on_rpc_resp e w)
unfolding on_rpc_resp
on_rpc_resp-IsTimed e w v = elim (Bool-cases (not (is_text e.from) || not (is_text e.to))) [
  | inl h ↦ rw h v
  | inr h ↦ rw h (elim (Bool-cases (e.rpc == some "AppendEntriesResp")) [
    | inl r ↦ rw r (rw mark_resp_seen-packets launched)
    | inr r ↦ rw r launched
  ])
]
  where
    launched : IsTimed (launch (packet_of e e.success e.granted w) w)
    launched = launch-IsTimed (packet_of e e.success e.granted w) w refl refl v
