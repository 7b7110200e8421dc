-- ===== src/Views/Topology/Drawn.antt =====
-- Which packets the topology draws.
use atividade_consenso_raft.Base.{
  ℕ, String, Option, is_some, Option-cases, string_eq, nat_eq, ◌==◌, Bool, false, ◌&&◌, ◌||◌, List,
  [], ◌∷◌, ◌++◌, has, has-select, map, map-select, ◌≡◌, refl, ap, ◌∙◌, arith, Bool-cases, inl, inr,
  beq_refl, beq_sound, subst,
}
use atividade_consenso_raft.Store.State.{Packet, State}
use atividade_consenso_raft.Views.Topology.{
  Dot, dot_of, dot_ids, keep_dots, add_dot, add_dots, render_packets,
}

-- Is there a packet with this id that has a way?
abbrev pub has_way : (Packet → Option String) → ℕ → List Packet → Bool
has_way way i [] = false
has_way way i (p ∷ ps) = ((p.id == i) && (is_some (way p))) || has_way way i ps

has-snoc :
    (i : ℕ) (d : Dot) (dots : List Dot)
    → has i (dot_ids (dots ++ d ∷ [])) ≡ (d.id == i || has i (dot_ids dots))
unfolding has
has-snoc i d [] = refl
has-snoc i d (x ∷ dots) = ground (arith, has-snoc i d dots)

has-add_dot :
    (way : Packet → Option String) (p : Packet) (i : ℕ) (dots : List Dot)
    → has i (dot_ids (add_dot way p dots))
      ≡ (((p.id == i) && (is_some (way p))) || has i (dot_ids dots))
unfolding add_dot has
has-add_dot way p i dots = elim (Option-cases (way p)) [
  | inl e ↦ elim (Bool-cases (p.id == i)) [
    | inl hit ↦ ground (arith, e)
    | inr miss ↦ ground (arith, e, miss)
  ]
  | inr (path, e) ↦ elim (Bool-cases (p.id == i)) [
    | inl hit ↦
        subst
          (λ j.
            has j (dot_ids (add_dot way p dots))
            ≡ ((p.id == j && is_some (way p)) || has j (dot_ids dots)))
          (beq_sound hit) (ground (arith, e, has-snoc p.id (dot_of path p) dots, beq_refl p.id))
    | inr miss ↦ ground (arith, e, miss, has-snoc i (dot_of path p) dots)
  ]
]

has-add_dots :
    (way : Packet → Option String) (ps : List Packet) (i : ℕ) (dots : List Dot)
    → has i (dot_ids (add_dots way ps dots)) ≡ (has_way way i ps || has i (dot_ids dots))
unfolding add_dots
has-add_dots way [] i dots = refl
has-add_dots way (p ∷ ps) i dots =
    ground (arith, has-add_dots way ps i (add_dot way p dots), has-add_dot way p i dots)

-- After a render a packet has a dot exactly if it is in the state, and has a way or had a dot before.
pub render_packets-drawn :
    (way : Packet → Option String) (s : State) (dots : List Dot) (i : ℕ)
    → has i (dot_ids (render_packets way s dots))
      ≡ (has_way way i s.packets || (has i (map (λ p. p.id) s.packets) && has i (dot_ids dots)))
unfolding render_packets keep_dots
render_packets-drawn way s dots i =
    let ids = map (λ (p : Packet). p.id) s.packets in
    has-add_dots way s.packets i (keep_dots s dots)
    ∙ ap (λ b. has_way way i s.packets || b)
        (ap (has i) (map-select (λ (d : Dot). d.id) (λ j. has j ids) dots)
          ∙ has-select (λ j. has j ids) i (dot_ids dots))
