-- ===== src/Views/NodeCard/Freshness.antt =====
-- How long a card shows what a node said, and that the leader has a quorum.
use atividade_consenso_raft.Base.{
  lookup_laws, ℕ, ◌-◌, ◌<◌, String, string_eq, Bool, true, ◌||◌, Option, none, some, Map, get?, ltb,
  or_default, if◌then◌else◌, ◌≡◌, refl, ◌∙◌, arith,
}
use atividade_consenso_raft.Config.{highlight_quorum_ms}
use atividade_consenso_raft.Store.State.{State, NodeState, Quorum}
use atividade_consenso_raft.Store.Nodes.{
  Partial, assign, update_node, update_found, commit_badge, is_leader,
}
use atividade_consenso_raft.Views.NodeCard.{
  Card, stale_ms, is_stale_at, quorum_badge, fill_card, render_card,
}

known_node :
    (id : String) (p : Partial) (t : ℕ) (s : State) (n : NodeState)
    → get? id s.nodes ≡ some n
    → update_node id p t s ≡ update_found id p t n s
unfolding update_node
known_node id p t s n known = rw (known, update_node)

get?-update_found :
    (id : String) (p : Partial) (t : ℕ) (s : State) (n : NodeState)
    → get? id (update_found id p t n s).nodes ≡ some (record (assign n p) { last_seen = t })
unfolding update_found
get?-update_found id p t s n = simp lookup_laws

card_of :
    (id : String) (now : ℕ) (s : State) (n : NodeState)
    → get? id s.nodes ≡ some n
    → (c : Card) × (render_card s now id ≡ some c)
      × (c.papel ≡ (if is_stale_at now n then some "sem resposta" else n.role))
      × (c.quorum ≡ quorum_badge now n.role (get? id s.recently_committed_leader))
unfolding render_card fill_card
card_of id now s n known = (fill_card s now id n, rw (known, render_card), refl, refl)

-- An update of a known node that names its role makes its card fresh for 1500 ms and no longer:
-- so long the card shows the role, and after that "sem resposta".
pub update_node-card :
    (id : String) (p : Partial) (t now : ℕ) (s : State) (n : NodeState) (role : Option String)
    → get? id s.nodes ≡ some n
    → p.role ≡ some role
    → (c : Card) × (render_card (update_node id p t s) now id ≡ some c)
      × (c.papel ≡ (if ltb stale_ms (now - t) then some "sem resposta" else role))
unfolding assign is_stale_at
update_node-card id p t now s n role known says =
    let (c, rendered, papel, _) =
      card_of id now (update_found id p t n s) (record (assign n p) { last_seen = t })
        (get?-update_found id p t s n) in
    (c, rw (known_node id p t s n known) rendered, papel ∙ rw says)

commit_badge-rises :
    (old i : ℕ) (id : String) (t : ℕ) (badges : Map String Quorum)
    → old < i
    → get? id (commit_badge true (some i) old id t badges) ≡ some (record { index = i; t_ms = t })
unfolding commit_badge
commit_badge-rises old i id t badges more =
    let rises : ltb old i ≡ true = ground arith in rw rises (simp lookup_laws)

commit_badge-set :
    (leading : Bool) {commit : Option ℕ} {old i : ℕ} (id : String) (t : ℕ)
    (badges : Map String Quorum)
    → leading ≡ true
    → commit ≡ some i
    → old < i
    → get? id (commit_badge leading commit old id t badges) ≡ some (record { index = i; t_ms = t })
commit_badge-set leading {commit} {old} {i} id t badges leads reaches more =
    rw (leads, reaches) (commit_badge-rises old i id t badges more)

-- If an update of a known node names it as the leader, with a greater commit index than before,
-- the badge on its card shows this index for 2000 ms and no longer.
pub update_node-quorum :
    (id : String) (p : Partial) (t now : ℕ) (s : State) (n : NodeState) (i : ℕ)
    → get? id s.nodes ≡ some n
    → p.role ≡ some (some "leader")
    → p.commit_idx ≡ some i
    → n.commit_idx < i
    → (c : Card) × (render_card (update_node id p t s) now id ≡ some c)
      × (c.quorum ≡ (if ltb (now - t) highlight_quorum_ms then some i else none))
unfolding assign update_found quorum_badge
update_node-quorum id p t now s n i known leads reaches more =
    let (c, rendered, _, quorum) =
      card_of id now (update_found id p t n s) (record (assign n p) { last_seen = t })
        (get?-update_found id p t s n) in
    (c, rw (known_node id p t s n known) rendered, quorum ∙ badge)
  where
    leading : Bool
    leading =
        is_leader (or_default p.role n.role)
        || is_leader (or_default p.role none)
        || is_leader n.role

    leading_now : leading ≡ true
    leading_now = rw leads

    badge :
        quorum_badge now (or_default p.role n.role) (
          get? id (commit_badge leading p.commit_idx n.commit_idx id t s.recently_committed_leader))
        ≡ (if ltb (now - t) highlight_quorum_ms then some i else none)
    badge = rw (
      commit_badge-set leading id t s.recently_committed_leader leading_now reaches more,
      leads,
      quorum_badge,
    )
