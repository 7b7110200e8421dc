-- ===== src/Handlers/Rpc.antt =====
-- infra/dashboard/js/handlers/rpcHandler.js: packets for the animation, and the links that answer.
use atividade_consenso_raft.Base.{
  suc, ◌+◌, String, string_eq, option_eq, ◌==◌, not, ◌||◌, Option, none, some, Bool, ltb, ◌∷◌, [],
  ◌++◌, if◌then◌else◌,
}
use atividade_consenso_raft.Config.{duration_for}
use atividade_consenso_raft.Event.{Event, is_text, or_zero, prop_key}
use atividade_consenso_raft.Store.State.{Packet}
use atividade_consenso_raft.Store.Links.{mark_resp_seen}
use atividade_consenso_raft.Store.Packets.{record_packet}
use atividade_consenso_raft.World.{World, with_state}

abbrev pub send_kind : Event → String
send_kind e =
    if e.rpc == some "AppendEntries"
    then (if ltb 0 (or_zero e.entries) then "entries" else "heartbeat")
    else if e.rpc == some "RequestVote"
    then "vote"
    else if e.rpc == some "InstallSnapshot"
    then "snapshot"
    else "heartbeat"

abbrev pub resp_kind : Event → String
resp_kind e =
    if e.rpc == some "AppendEntriesResp"
    then "appendResp"
    else if e.rpc == some "RequestVoteResp"
    then "voteResp"
    else "heartbeat"

unfoldable pub packet_kind_for : Event → String
packet_kind_for e =
    if e.type == "rpc_send"
    then send_kind e
    else if e.type == "rpc_resp"
    then resp_kind e
    else "heartbeat"

abbrev pub packet_of : Event → Option Bool → Option Bool → World → Packet
packet_of e success granted w = record {
  id = suc w.packet_counter;
  from = prop_key e.from;
  to = prop_key e.to;
  rpc = e.rpc;
  entries = or_zero e.entries;
  kind = packet_kind_for e;
  term = e.term;
  success = success;
  granted = granted;
  t_start = w.perf_now;
  duration = duration_for (packet_kind_for e) w.state.heartbeat_ms;
}

-- `store.recordPacket(packet)`, and the timer that removes it 50 ms after its animation.
unfoldable pub launch : Packet → World → World
launch p w = record w {
  state = record_packet p w.state;
  packet_counter = p.id;
  timers = w.timers ++ record { packet = p.id; due = w.perf_now + (p.duration + 5000) } ∷ [];
}

unfoldable pub on_rpc_send : Event → World → World
unfolding launch
on_rpc_send e w =
    if not (is_text e.from) || not (is_text e.to) then w else launch (packet_of e none none w) w

unfoldable pub on_rpc_resp : Event → World → World
unfolding launch
on_rpc_resp e w =
    if not (is_text e.from) || not (is_text e.to)
    then w
    else let launched = launch (packet_of e e.success e.granted w) w in
      if e.rpc == some "AppendEntriesResp"
      then with_state (mark_resp_seen (prop_key e.from) (prop_key e.to) w.date_now) launched
      else launched

unfoldable pub on_rpc_recv : Event → World → World
on_rpc_recv e w = w
