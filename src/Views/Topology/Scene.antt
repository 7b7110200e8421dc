-- ===== src/Views/Topology/Scene.antt =====
-- infra/dashboard/js/views/topologyView.js: the lines between the nodes, the ways of the packets, and
-- what is drawn when the state or the size of the page changes.
pub mod Lines
pub mod Boxes
pub mod Dots
pub mod Frames
pub mod Silence
use atividade_consenso_raft.Base.{
  ℕ, ◌+◌, ◌*◌, ◌-◌, String, string_eq, ◌==◌, Bool, true, false, not, ◌&&◌, ◌||◌, Option, none, some,
  List, [], ◌∷◌, ◌++◌, Map, get?, insert, has, select, ltb, leb, concat, decimal, if◌then◌else◌,
}
use atividade_consenso_raft.Config.{node_box, poll_tick_ms}
use atividade_consenso_raft.Geometry.Arithmetic.{Numbers, ◌⊖◌}
use atividade_consenso_raft.Geometry.{Point, Layout, Route, layout, route_packet, path_d, half}
use atividade_consenso_raft.Store.State.{State, NodeState, Packet, Link, link_key}
use atividade_consenso_raft.Views.Topology.Panes.{Box, ensure_nodes, change_box, render_nodes}
use atividade_consenso_raft.Views.Topology.{Dot, render_packets}

pub record LinkLine (A : Type 0) : Type 0 where
  pub p1 : Point A
  pub p2 : Point A
  pub is_broken : Bool

-- The line of a pair, if its link is known and both nodes have a place.
unfoldable pub line_of_pair :
    {A : Type 0} → State → Map String (Point A) → String → String → List (LinkLine A)
unfolding get? link_key
line_of_pair s positions a b = elim (get? (link_key a b) s.links) [
  | none ↦ []
  | some l ↦ elim (get? a positions) [
    | none ↦ []
    | some pa ↦ elim (get? b positions) [
      | none ↦ []
      | some pb ↦ record { p1 = pa; p2 = pb; is_broken = l.down } ∷ []
    ]
  ]
]

-- The inner loop, over the nodes behind `a`, and the outer one.
unfoldable pub lines_of_row :
    {A : Type 0} → State → Map String (Point A) → String → List String → List (LinkLine A)
unfolding line_of_pair
lines_of_row s positions a [] = []
lines_of_row s positions a (b ∷ bs) = line_of_pair s positions a b ++ lines_of_row s positions a bs

unfoldable pub lines_of :
    {A : Type 0} → State → Map String (Point A) → List String → List (LinkLine A)
unfolding lines_of_row
lines_of s positions [] = []
lines_of s positions (a ∷ ids) = lines_of_row s positions a ids ++ lines_of s positions ids

abbrev pub render_links : {A : Type 0} → State → Map String (Point A) → List (LinkLine A)
render_links s positions = lines_of s positions s.node_ids

-- The way of a packet: none if one of its nodes has no place.
abbrev pub points_of : {A : Type 0} → Map String (Point A) → List String → List (Point A)
points_of positions [] = []
points_of positions (id ∷ ids) = elim (get? id positions) [
  | none ↦ points_of positions ids
  | some p ↦ p ∷ points_of positions ids
]

abbrev pub others_of : State → Packet → List String
others_of s p = select (λ n. not (n == p.from) && not (n == p.to)) s.node_ids

-- Where a dot is: hidden at the end of its way, or after a part of the length of it. Before its start
-- it stands at the beginning, where the browser puts a length below 0.
pub data Progress : Type 0 where
  hidden : Progress
  part : (done whole : ℕ) → Progress

unfoldable pub progress : ℕ → Dot → Progress
progress now dot =
    if leb (dot.t_start + dot.duration) now then hidden else part (now - dot.t_start) dot.duration

module _ ⦃m : Numbers⦄ where
  unfoldable pub packet_route :
      State → Map String (Point m.Number) → Point m.Number → Packet → Option (Route m.Number)
  unfolding route_packet get?
  packet_route s positions center p = elim (get? p.from positions) [
    | none ↦ none
    | some from ↦ elim (get? p.to positions) [
      | none ↦ none
      | some to ↦ some (route_packet from to (points_of positions (others_of s p)) center)
    ]
  ]

  -- The attribute `d` of the path that a packet takes.
  unfoldable pub way_of :
      State → Map String (Point m.Number) → Point m.Number → Packet → Option String
  unfolding packet_route path_d
  way_of s positions center p = elim (packet_route s positions center p) [
    | none ↦ none
    | some route ↦ some (path_d route)
  ]

  pub record Scene : Type 0 where
    pub boxes : Map String Box
    pub positions : Map String (Point m.Number)
    pub center : Point m.Number
    pub width : m.Number
    pub height : m.Number
    pub lines : List (LinkLine m.Number)
    pub dots : List Dot

  abbrev pub place_box : Point m.Number → Box → Box
  place_box p box = record box {
    left = concat (m.text (p.cx ⊖ half (m.of_nat node_box.w)) ∷ "px" ∷ []);
    top = concat (m.text (p.cy ⊖ half (m.of_nat node_box.h)) ∷ "px" ∷ []);
  }

  unfoldable pub place_boxes :
      Map String (Point m.Number) → List String → Map String Box → Map String Box
  unfolding get? insert concat
  place_boxes positions [] boxes = boxes
  place_boxes positions (id ∷ ids) boxes = elim (get? id positions) [
    | none ↦ place_boxes positions ids boxes
    | some p ↦ place_boxes positions ids (change_box (place_box p) id boxes)
  ]

  -- The size is that of the element on the page.
  unfoldable pub relayout : State → m.Number → m.Number → Scene → Scene
  unfolding layout place_boxes lines_of
  relayout s width height scene =
      let r = layout s.node_ids width height in
      record scene {
        width = width;
        height = height;
        positions = r.positions;
        center = r.center;
        boxes = place_boxes r.positions s.node_ids scene.boxes;
        lines = render_links s r.positions;
      }

  abbrev pub first_layout : State → m.Number → m.Number → Scene → Scene
  first_layout s width height scene =
      if m.is_zero scene.width || m.is_zero scene.height
      then relayout s width height scene
      else scene

  unfoldable pub render : State → ℕ → m.Number → m.Number → Scene → Scene
  unfolding ensure_nodes relayout render_nodes lines_of render_packets way_of
  render s now width height scene =
      let placed =
        first_layout s width height
          (record scene { boxes = ensure_nodes s.node_ids scene.boxes }) in
      record placed {
        boxes = render_nodes s now s.node_ids placed.boxes;
        lines = render_links s placed.positions;
        dots = render_packets (way_of s placed.positions placed.center) s placed.dots;
      }
