-- ===== src/Joint/Feed/Links.antt =====
-- The links that the page shows, and the calls of the consensus (infra/node/transport.go).
use atividade_consenso_raft.Base.{
  length, ℕ, ◌+◌, ◌*◌, ◌≤◌, String, true, false, Option, some, [], ◌∷◌, nat_eq, string_eq,
  option_eq, ◌==◌, ◌≡◌, refl, ap, ◌∙◌, arith,
}
use atividade_consenso_raft.Event.{Event, is_text}
use atividade_consenso_raft.Store.State.{Link, Packet}
use atividade_consenso_raft.Store.Links.{tick_silence, mark_resp_seen}
use atividade_consenso_raft.Store.Links.Silence.{link_of, tick_silence-mark_resp_seen}
use atividade_consenso_raft.Store.Packets.{record_packet}
use atividade_consenso_raft.World.{World, with_state}
use atividade_consenso_raft.Handlers.Rpc.{on_rpc_resp, launch, packet_of}
use atividade_consenso_raft.Main.{deliver}
use atividade_consenso_raft.Main.Routing.{deliver-eq-handle}
use atividade_consenso_raft.Sse.{on_message, with_node}
use atividade_consenso_raft.Node.Message.{Published, encode, text_field}
use atividade_consenso_raft.Node.Fsm.{Command}
use atividade_consenso_raft.Node.Transport.{
  Transport, AppendRequest, AppendResponse, append_sent, append_entries, resp_event, high_idx,
}
use atividade_consenso_raft.Joint.Feed.Times.{SameTimes, append_sent-SameTimes}
use atividade_consenso_raft.Joint.Feed.{deliver_published, deliver_published-append}

-- The event of an answered call of AppendEntries.
abbrev answer_event : {D : Type 0} → String → String → AppendRequest D → AppendResponse → Published
answer_event node_id id args resp = record (resp_event node_id id "AppendEntriesResp" resp.term) {
  success = resp.success;
  entries = length args.entries;
  index = high_idx args;
}

-- An answer puts a packet on its way and marks the link.
on_rpc_resp-answer :
    (e : Event) (w : World) (from to : String)
    → (from == "") ≡ false
    → (to == "") ≡ false
    → e.from ≡ some from
    → e.to ≡ some to
    → e.rpc ≡ some "AppendEntriesResp"
    → on_rpc_resp e w
      ≡ with_state
          (mark_resp_seen from to w.date_now)
          (launch (packet_of e e.success e.granted w) w)
unfolding on_rpc_resp
on_rpc_resp-answer e w from to a b c d r = ground (arith, a, b, c, d, r)

deliver-rpc_resp : (e : Event) (w : World) → e.type ≡ "rpc_resp" → deliver e w ≡ on_rpc_resp e w
deliver-rpc_resp e w kind = deliver-eq-handle e w ∙ rw kind refl

pub is_text-text_field : (s : String) → (s == "") ≡ false → is_text (text_field s) ≡ true
is_text-text_field s full = ground (arith, full)

pub with_node-text : (id : String) (e : Event) → is_text e.node ≡ true → with_node id e ≡ e
unfolding with_node
with_node-text id e named = rw named refl

on_message-answer :
    {D : Type 0} (leader id : String) (args : AppendRequest D) (resp : AppendResponse) (w : World)
    → (leader == "") ≡ false
    → (id == "") ≡ false
    → (p : Packet) × (on_message leader (some (encode (answer_event leader id args resp))) w
        ≡ with_state (mark_resp_seen id leader w.date_now) (launch p w))
unfolding on_message encode
on_message-answer leader id args resp w named peer = (
  packet_of e e.success e.granted w,
  ap (λ v. deliver v w) (with_node-text leader e (is_text-text_field leader named))
      ∙ deliver-rpc_resp e w refl
      ∙ on_rpc_resp-answer e w id leader peer named (rw peer refl) (rw named refl) refl,
)
  where
    e : Event
    e = encode (answer_event leader id args resp)

-- A call of AppendEntries that a named node makes and a named peer answers, successfully or not: when
-- its events have reached the page, the link between the two has been heard at that time, and every
-- tick up to two heartbeats later shows it as up.
pub append_entries-shows_link :
    {D : Type 0} (unmarshal : D → Option Command) (t : Transport) (id : String)
    (args : AppendRequest D) (resp : AppendResponse) (w : World) (now : ℕ)
    → (t.node_id == "") ≡ false
    → (id == "") ≡ false
    → now ≤ w.date_now + 2 * w.state.heartbeat_ms
    → let w' = deliver_published t.node_id (append_entries unmarshal t id args (some resp)).1 w in
      (l : Link) × (link_of t.node_id id (tick_silence now w'.state) ≡ some l)
      × (l.last_resp ≡ w.date_now)
      × (l.down ≡ false)
unfolding append_entries deliver_published launch record_packet
append_entries-shows_link unmarshal t id args resp w now named peer soon =
    rw
      (deliver_published-append t.node_id (append_sent unmarshal t id args)
        (answer_event t.node_id id args resp ∷ []) w)
      (let (p, marked) = on_message-answer t.node_id id args resp sent named peer in
        let (l, shown, heard, up) =
          tick_silence-mark_resp_seen id t.node_id sent.date_now now (launch p sent).state
            in_time in
        rw marked (l, shown, heard ∙ times.0, up))
  where
    sent : World
    sent = deliver_published t.node_id (append_sent unmarshal t id args) w

    times : SameTimes w sent
    times = append_sent-SameTimes unmarshal t id args w

    in_time : now ≤ sent.date_now + 2 * sent.state.heartbeat_ms
    in_time = let (clock, beat) = times in rw (clock, beat) soon
