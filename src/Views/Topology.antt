-- ===== src/Views/Topology.antt =====
-- infra/dashboard/js/views/topologyView.js: the colour and size of a packet, and which packets are
-- drawn. The way of a packet is an argument here.
pub mod Drawn
pub mod Colours
pub mod Panes
pub mod Scene
use atividade_consenso_raft.Base.{
  ℕ, String, string_eq, nat_eq, ◌==◌, Bool, true, false, not, ◌||◌, Option, none, some, List, [],
  ◌∷◌, ◌++◌, has, map, select, if◌then◌else◌,
}
use atividade_consenso_raft.Config.{packet_colors}
use atividade_consenso_raft.Store.State.{Packet, State}

-- `undefined` and `false` are false.
abbrev pub is_true : Option Bool → Bool
is_true none = false
is_true (some b) = b

unfoldable pub packet_color : Packet → String
packet_color p =
    if p.kind == "heartbeat"
    then packet_colors.heartbeat
    else if p.kind == "entries"
    then packet_colors.entries
    else if p.kind == "snapshot"
    then packet_colors.snapshot
    else if p.kind == "vote"
    then packet_colors.vote
    else if p.kind == "voteResp"
    then (if is_true p.granted then packet_colors.vote_granted else packet_colors.vote_denied)
    else if p.kind == "appendResp"
    then (if is_true p.success
        then packet_colors.append_resp_ok
        else packet_colors.append_resp_fail)
    else packet_colors.heartbeat

unfoldable pub packet_radius : Packet → ℕ
packet_radius p = if p.kind == "entries" then 7 else if p.kind == "snapshot" then 9 else 5

-- An element of `activePackets`.
pub record Dot : Type 0 where
  pub id : ℕ
  pub radius : ℕ
  pub fill : String
  pub path : String
  pub t_start : ℕ
  pub duration : ℕ

abbrev pub dot_ids : List Dot → List ℕ
dot_ids = map (λ d. d.id)

unfoldable pub keep_dots : State → List Dot → List Dot
unfolding has
keep_dots s dots = select (λ d. has d.id (map (λ p. p.id) s.packets)) dots

abbrev pub dot_of : String → Packet → Dot
dot_of path p = record {
  id = p.id;
  radius = packet_radius p;
  fill = packet_color p;
  path = path;
  t_start = p.t_start;
  duration = p.duration;
}

-- One packet, where `way` gives the path that it takes; none if one of its nodes has no place.
unfoldable pub add_dot : (Packet → Option String) → Packet → List Dot → List Dot
unfolding has
add_dot way p dots =
    if has p.id (dot_ids dots)
    then dots
    else elim (way p) [ none ↦ dots | some path ↦ dots ++ dot_of path p ∷ [] ]

unfoldable pub add_dots : (Packet → Option String) → List Packet → List Dot → List Dot
unfolding add_dot
add_dots way [] dots = dots
add_dots way (p ∷ ps) dots = add_dots way ps (add_dot way p dots)

unfoldable pub render_packets : (Packet → Option String) → State → List Dot → List Dot
unfolding keep_dots add_dots
render_packets way s dots = add_dots way s.packets (keep_dots s dots)
