-- ===== src/Views/Topology/Colours.antt =====
-- What the colour of a packet says.
use atividade_consenso_raft.Base.{
  String, string_eq, option_eq, nat_eq, ◌==◌, Bool, true, false, not, ◌&&◌, ◌||◌, Option, some,
  none, ltb, ◌≡◌, refl, sym, ◌∙◌, arith, Bool-cases, inl, inr, if_case, beq_sound,
}
use atividade_consenso_raft.Config.{packet_colors}
use atividade_consenso_raft.Event.{Event, or_zero}
use atividade_consenso_raft.Store.State.{Packet}
use atividade_consenso_raft.World.{World}
use atividade_consenso_raft.Handlers.Rpc.{packet_of, packet_kind_for, send_kind, resp_kind}
use atividade_consenso_raft.Views.Topology.{packet_color, is_true}

or_false : (b : Bool) → (b || false) ≡ b
or_false b = ground arith

-- An answer that refuses: a vote that is not granted, or entries that are not taken.
abbrev pub is_refusal : Event → Bool
is_refusal e =
    e.type == "rpc_resp"
    && ((e.rpc == some "RequestVoteResp" && not (is_true e.granted))
        || (e.rpc == some "AppendEntriesResp" && not (is_true e.success)))

-- The colour of a packet of this kind is that of a refusal.
abbrev refused : String → Packet → Bool
refused kind p = packet_color (record p { kind = kind }) == packet_colors.vote_denied

send_kind-refused : (e : Event) (p : Packet) → refused (send_kind e) p ≡ false
unfolding packet_color
send_kind-refused e p =
    if_case (λ k. refused k p ≡ false) (e.rpc == some "AppendEntries")
      (if_case (λ k. refused k p ≡ false) (ltb 0 (or_zero e.entries)) refl refl)
      (if_case (λ k. refused k p ≡ false) (e.rpc == some "RequestVote") refl
        (if_case (λ k. refused k p ≡ false) (e.rpc == some "InstallSnapshot") refl refl))

granted_color :
    (granted : Option Bool) (p : Packet)
    → refused "voteResp" (record p { granted = granted }) ≡ not (is_true granted)
unfolding packet_color
granted_color none p = refl
granted_color (some true) p = refl
granted_color (some false) p = refl

success_color :
    (success : Option Bool) (p : Packet)
    → refused "appendResp" (record p { success = success }) ≡ not (is_true success)
unfolding packet_color
success_color none p = refl
success_color (some true) p = refl
success_color (some false) p = refl

abbrev is_refused_rpc : Event → Bool
is_refused_rpc e =
    (e.rpc == some "RequestVoteResp" && not (is_true e.granted))
    || (e.rpc == some "AppendEntriesResp" && not (is_true e.success))

-- The packet with the outcome that the event tells.
abbrev with_outcome : Event → Packet → Packet
with_outcome e p = record p { success = e.success; granted = e.granted }

resp_kind-refused :
    (e : Event) (p : Packet) → refused (resp_kind e) (with_outcome e p) ≡ is_refused_rpc e
unfolding packet_color
resp_kind-refused e p = elim (Bool-cases (e.rpc == some "AppendEntriesResp")) [
  | inl append ↦
      let rpc : e.rpc ≡ some "AppendEntriesResp" = beq_sound append in
      rw rpc (success_color e.success (with_outcome e p))
  | inr other ↦ elim (Bool-cases (e.rpc == some "RequestVoteResp")) [
    | inl vote ↦
        rw (other, vote)
          (granted_color e.granted (with_outcome e p) ∙ sym (or_false (not (is_true e.granted))))
    | inr none_of_them ↦ rw (other, none_of_them)
  ]
]

packet_kind_for-refused :
    (e : Event) (p : Packet) → refused (packet_kind_for e) (with_outcome e p) ≡ is_refusal e
unfolding packet_kind_for packet_color
packet_kind_for-refused e p = elim (Bool-cases (e.type == "rpc_resp")) [
  | inl answer ↦
      let type : e.type ≡ "rpc_resp" = beq_sound answer in rw type (resp_kind-refused e p)
  | inr other ↦ rw other (
      if_case (λ k. refused k (with_outcome e p) ≡ false) (e.type == "rpc_send")
        (send_kind-refused e (with_outcome e p)) refl)
]

-- The packet made of an event and its outcome has the colour of a refusal exactly if the event is
-- the answer to a vote that was not granted or to entries that were not taken.
pub packet_color-refusal :
    (e : Event) (w : World)
    → (packet_color (packet_of e e.success e.granted w) == packet_colors.vote_denied) ≡ is_refusal e
packet_color-refusal e w = packet_kind_for-refused e (packet_of e e.success e.granted w)
