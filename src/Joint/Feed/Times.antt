-- ===== src/Joint/Feed/Times.antt =====
-- What a call of AppendEntries sends (infra/node/transport.go) changes neither clock nor heartbeat.
use atividade_consenso_raft.Base.{
  String, not, ◌||◌, Option, some, List, [], ◌∷◌, string_eq, All, ◌≡◌, ◌⊎◌, refl, ◌∙◌, sym, subst,
  inl, inr, Bool-cases, Option-cases, if_case,
}
use atividade_consenso_raft.Event.{Event, is_text, is_positive}
use atividade_consenso_raft.Store.Logs.{append_log}
use atividade_consenso_raft.Store.Packets.{record_packet}
use atividade_consenso_raft.World.{World}
use atividade_consenso_raft.Handlers.{on_log_entry}
use atividade_consenso_raft.Handlers.Rpc.{on_rpc_send, launch}
use atividade_consenso_raft.Main.{deliver}
use atividade_consenso_raft.Main.Routing.{deliver-eq-handle}
use atividade_consenso_raft.Sse.{on_message, with_node}
use atividade_consenso_raft.Node.Message.{Published, encode}
use atividade_consenso_raft.Node.Fsm.{Command, Log}
use atividade_consenso_raft.Node.Transport.{Transport, AppendRequest, append_sent, emit_log_entries}
use atividade_consenso_raft.Joint.Feed.{deliver_published}
use atividade_consenso_raft.Joint.Feed.Logs.{deliver-log_entry, type-with_node}

-- What a call sends: no such event changes the clock or the heartbeat of the page.
abbrev IsSent : Event → Type 0
IsSent e = (e.type ≡ "rpc_send") ⊎ (e.type ≡ "log_entry")

abbrev pub SameTimes : World → World → Type 0
SameTimes w w' = (w'.date_now ≡ w.date_now) × (w'.state.heartbeat_ms ≡ w.state.heartbeat_ms)

on_rpc_send-SameTimes : (e : Event) (w : World) → SameTimes w (on_rpc_send e w)
unfolding on_rpc_send launch record_packet
on_rpc_send-SameTimes e w =
    if_case (SameTimes w) (not (is_text e.from) || not (is_text e.to)) (refl, refl) (refl, refl)

on_log_entry-SameTimes : (e : Event) (w : World) → SameTimes w (on_log_entry e w)
unfolding on_log_entry append_log
on_log_entry-SameTimes e w =
    if_case (SameTimes w) (not (is_text e.to) || not (is_positive e.index)) (refl, refl)
      (refl, refl)

deliver-rpc_send : (e : Event) (w : World) → e.type ≡ "rpc_send" → deliver e w ≡ on_rpc_send e w
deliver-rpc_send e w kind = deliver-eq-handle e w ∙ rw kind refl

deliver-SameTimes : (e : Event) (w : World) → IsSent e → SameTimes w (deliver e w)
deliver-SameTimes e w (inl sent) =
    subst (SameTimes w) (sym (deliver-rpc_send e w sent)) (on_rpc_send-SameTimes e w)
deliver-SameTimes e w (inr entry) =
    subst (SameTimes w) (sym (deliver-log_entry e w entry)) (on_log_entry-SameTimes e w)

emit_log_entries-IsSent :
    {D : Type 0} (unmarshal : D → Option Command) (leader id : String) (entries : List (Log D))
    → All (λ e. IsSent (encode e)) (emit_log_entries unmarshal leader id entries)
unfolding emit_log_entries encode
emit_log_entries-IsSent unmarshal leader id [] = tt
emit_log_entries-IsSent unmarshal leader id (l ∷ entries) =
    let rest = emit_log_entries-IsSent unmarshal leader id entries in
    elim (Bool-cases l.is_command) [
      | inr other ↦ rw (other, emit_log_entries) rest
      | inl command ↦ elim (Option-cases (unmarshal l.content)) [
        | inl broken ↦ rw (command, broken, emit_log_entries) rest
        | inr (cmd, read) ↦ rw (command, read, emit_log_entries) (inr refl, rest)
      ]
    ]

IsSent-with_node : (id : String) (e : Event) → IsSent e → IsSent (with_node id e)
IsSent-with_node id e (inl sent) = inl (type-with_node id e ∙ sent)
IsSent-with_node id e (inr entry) = inr (type-with_node id e ∙ entry)

deliver_published-SameTimes :
    (id : String) (events : List Published) (w : World)
    → All (λ e. IsSent (encode e)) events
    → SameTimes w (deliver_published id events w)
unfolding deliver_published on_message
deliver_published-SameTimes id [] w sent = (refl, refl)
deliver_published-SameTimes id (e ∷ events) w sent =
    let (later, later') =
      deliver_published-SameTimes id events (on_message id (some (encode e)) w) sent.1 in
    let (now, now') =
      deliver-SameTimes (with_node id (encode e)) w (IsSent-with_node id (encode e) sent.0) in
    (later ∙ now, later' ∙ now')

-- The events of a call leave the clock and the heartbeat of the page as they are.
pub append_sent-SameTimes :
    {D : Type 0} (unmarshal : D → Option Command) (t : Transport) (id : String)
    (args : AppendRequest D) (w : World)
    → SameTimes w (deliver_published t.node_id (append_sent unmarshal t id args) w)
unfolding append_sent encode
append_sent-SameTimes unmarshal t id args w =
    deliver_published-SameTimes t.node_id (append_sent unmarshal t id args) w
      (inl refl, emit_log_entries-IsSent unmarshal t.node_id id args.entries)
