-- ===== src/Views/Stream/Format.antt =====
-- The text of a line: FORMATTERS of infra/dashboard/js/views/eventStreamView.js.
pub mod Sends
use atividade_consenso_raft.Base.{
  ℕ, String, string_eq, ◌==◌, Bool, true, false, Option, none, some, List, [], ◌∷◌, Map, get?,
  concat, decimal, if◌then◌else◌,
}
use atividade_consenso_raft.Event.{Event, is_text, is_positive, prop_key, number_text}

abbrev pub flag_text : Bool → String
flag_text true = "true"
flag_text false = "false"

unfoldable pub format_state : Event → String
unfolding concat
format_state e = concat (
    prop_key e.node
    ∷ " state role="
    ∷ prop_key e.role
    ∷ " term="
    ∷ number_text e.term
    ∷ " commit="
    ∷ number_text e.commit_idx
    ∷ " last_log="
    ∷ number_text e.last_log_idx
    ∷ [])

unfoldable pub format_role_change : Event → String
unfolding concat
format_role_change e = concat (prop_key e.node ∷ " role_change → " ∷ prop_key e.role ∷ [])

unfoldable pub format_leader_change : Event → String
unfolding concat
format_leader_change e = concat (prop_key e.node ∷ " leader_change → " ∷ prop_key e.to ∷ [])

unfoldable pub format_peer_change : Event → String
unfolding concat
format_peer_change e = concat (prop_key e.node ∷ " peer_change " ∷ prop_key e.to ∷ [])

-- `${e.entries ? ` entries=${e.entries}` : ''}`
unfoldable pub entries_text : Event → String
unfolding concat
entries_text e =
    if is_positive e.entries then concat (" entries=" ∷ number_text e.entries ∷ []) else ""

unfoldable pub outcome_text : String → Option Bool → String
unfolding concat
outcome_text label none = ""
outcome_text label (some b) = concat (label ∷ flag_text b ∷ [])

unfoldable pub format_rpc_send : Event → String
unfolding concat entries_text
format_rpc_send e = concat (
    prop_key e.from
    ∷ " → "
    ∷ prop_key e.to
    ∷ " "
    ∷ prop_key e.rpc
    ∷ " term="
    ∷ number_text e.term
    ∷ entries_text e
    ∷ [])

unfoldable pub format_rpc_resp : Event → String
unfolding concat entries_text outcome_text
format_rpc_resp e = concat (
    prop_key e.from
    ∷ " → "
    ∷ prop_key e.to
    ∷ " "
    ∷ prop_key e.rpc
    ∷ " term="
    ∷ number_text e.term
    ∷ outcome_text " success=" e.success
    ∷ outcome_text " granted=" e.granted
    ∷ entries_text e
    ∷ [])

unfoldable pub format_rpc_recv : Event → String
unfolding concat
format_rpc_recv e = concat (
    prop_key e.node
    ∷ " ← "
    ∷ prop_key e.from
    ∷ " "
    ∷ prop_key e.rpc
    ∷ " term="
    ∷ number_text e.term
    ∷ [])

unfoldable pub format_apply : Event → String
unfolding concat
format_apply e = concat (
    prop_key e.node
    ∷ " apply idx="
    ∷ number_text e.index
    ∷ " "
    ∷ prop_key e.command
    ∷ " "
    ∷ prop_key e.key
    ∷ (if is_text e.value then concat ("=" ∷ prop_key e.value ∷ []) else "")
    ∷ [])

unfoldable pub format_replication : Event → String
unfolding concat
format_replication e =
    concat (prop_key e.node ∷ " repl " ∷ prop_key e.to ∷ " match=" ∷ number_text e.index ∷ [])

abbrev pub formatters : Map String (Event → String)
formatters =
    ("state", format_state)
    ∷ ("role_change", format_role_change)
    ∷ ("leader_change", format_leader_change)
    ∷ ("peer_change", format_peer_change)
    ∷ ("rpc_send", format_rpc_send)
    ∷ ("rpc_resp", format_rpc_resp)
    ∷ ("rpc_recv", format_rpc_recv)
    ∷ ("apply", format_apply)
    ∷ ("replication", format_replication)
    ∷ []

-- What a line prints: a text, or the event as JSON where its type has no formatter.
pub data Message : Type 0 where
  formatted : String → Message
  json : Event → Message

pub record Line : Type 0 where
  pub tipo : String
  pub msg : Message

unfoldable pub line_of : Event → Line
unfolding get?
line_of evt = record {
  tipo = evt.type;
  msg = elim (get? evt.type formatters) [ none ↦ json evt | some fmt ↦ formatted (fmt evt) ];
}
