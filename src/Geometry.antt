-- ===== src/Geometry.antt =====
-- infra/dashboard/js/geometry.js: where the nodes stand, and the way of a packet between two of them.
pub mod Arithmetic
pub mod Places
pub mod Ways
use atividade_consenso_raft.Base.{
  ℕ, zero, suc, max, String, string_eq, Bool, Option, none, some, List, [], ◌∷◌, Map, insert, get?,
  true, false, length, concat, if◌then◌else◌, ◌+◌,
}
use atividade_consenso_raft.Config.{node_box, node_exclusion_pad}
use atividade_consenso_raft.Geometry.Arithmetic.{
  Numbers, ◌⊕◌, ◌⊖◌, ◌⊗◌, ◌⊘◌, larger, smaller, sign, or_else,
}

pub record Point (A : Type 0) : Type 0 where
  pub cx : A
  pub cy : A

pub record Layout (A : Type 0) : Type 0 where
  pub positions : Map String (Point A)
  pub center : Point A
  pub radius : A

-- A line, or a curve with its point of control.
pub data Route (A : Type 0) : Type 0 where
  line : (p0 p1 : Point A) → Route A
  quad : (p0 ctrl p1 : Point A) → Route A

-- Has a node a place?
abbrev pub is_placed : {A : Type 0} → Map String (Point A) → String → Bool
is_placed positions id = elim (get? id positions) [ none ↦ false | some p ↦ true ]

-- The loop over the nodes, from the index `i` on.
unfoldable pub place_all :
    {A : Type 0} → (ℕ → Point A) → List String → ℕ → Map String (Point A) → Map String (Point A)
unfolding insert
place_all place [] i positions = positions
place_all place (id ∷ ids) i positions = place_all place ids (suc i) (insert id (place i) positions)

module _ ⦃m : Numbers⦄ where
  abbrev pub half : m.Number → m.Number
  half a = a ⊘ m.of_nat 2

  -- The `i`-th of `n` places on a circle.
  abbrev pub place_at : Point m.Number → m.Number → ℕ → ℕ → Point m.Number
  place_at center r n i =
      let angle = half (m.negate m.pi) ⊕ m.of_nat 2 ⊗ m.pi ⊗ m.of_nat i ⊘ m.of_nat n in
      record { cx = center.cx ⊕ r ⊗ m.cos angle; cy = center.cy ⊕ r ⊗ m.sin angle }

  unfoldable pub layout : List String → m.Number → m.Number → Layout m.Number
  unfolding place_all
  layout ids width height =
      let cx = half width in
      let cy = half height in
      let min_dim = smaller cx cy in
      let r =
        larger (m.of_nat 120)
          (min_dim ⊖ half (m.of_nat (max node_box.w node_box.h)) ⊖ m.of_nat 24) in
      let center : Point m.Number = record { cx = cx; cy = cy } in
      record {
        positions = place_all (place_at center r (length ids)) ids 0 [];
        center = center;
        radius = r;
      }

  -- The distance of `q` to the segment between `p0` and `p1`.
  unfoldable pub dist_seg_point : Point m.Number → Point m.Number → Point m.Number → m.Number
  dist_seg_point p0 p1 q =
      let vx = p1.cx ⊖ p0.cx in
      let vy = p1.cy ⊖ p0.cy in
      let wx = q.cx ⊖ p0.cx in
      let wy = q.cy ⊖ p0.cy in
      let c1 = vx ⊗ wx ⊕ vy ⊗ wy in
      let c2 = vx ⊗ vx ⊕ vy ⊗ vy in
      let b = c1 ⊘ c2 in
      if m.at_most c1 (m.of_nat 0)
      then m.hypot (q.cx ⊖ p0.cx) (q.cy ⊖ p0.cy)
      else if m.at_most c2 c1
      then m.hypot (q.cx ⊖ p1.cx) (q.cy ⊖ p1.cy)
      else m.hypot (q.cx ⊖ (p0.cx ⊕ b ⊗ vx)) (q.cy ⊖ (p0.cy ⊕ b ⊗ vy))

  abbrev pub exclusion : m.Number
  exclusion = half (m.of_nat (max node_box.w node_box.h)) ⊕ m.of_nat node_exclusion_pad

  abbrev pub is_hit : Point m.Number → Point m.Number → Point m.Number → Bool
  is_hit from to n = m.less (dist_seg_point from to n) exclusion

  -- The first node that is hit.
  unfoldable pub obstacle :
      Point m.Number → Point m.Number → List (Point m.Number) → Option (Point m.Number)
  unfolding dist_seg_point
  obstacle from to [] = none
  obstacle from to (n ∷ others) = if is_hit from to n then some n else obstacle from to others

  abbrev pub middle : Point m.Number → Point m.Number → Point m.Number
  middle from to = record { cx = half (from.cx ⊕ to.cx); cy = half (from.cy ⊕ to.cy) }

  -- The point that the way bends to, off the middle and away from the centre.
  unfoldable pub control_point : Point m.Number → Point m.Number → Point m.Number → Point m.Number
  control_point from to center =
      let mid = middle from to in
      let dx = to.cx ⊖ from.cx in
      let dy = to.cy ⊖ from.cy in
      let len = or_else (m.hypot dx dy) (m.of_nat 1) in
      let perp_x = m.negate dy ⊘ len in
      let perp_y = dx ⊘ len in
      let dir_x = mid.cx ⊖ center.cx in
      let dir_y = mid.cy ⊖ center.cy in
      let side = or_else (sign (perp_x ⊗ dir_x ⊕ perp_y ⊗ dir_y)) (m.of_nat 1) in
      let offset = m.of_nat 2 ⊗ exclusion ⊕ m.of_nat 12 in
      record { cx = mid.cx ⊕ perp_x ⊗ offset ⊗ side; cy = mid.cy ⊕ perp_y ⊗ offset ⊗ side }

  unfoldable pub route_packet :
      Point m.Number → Point m.Number → List (Point m.Number) → Point m.Number → Route m.Number
  unfolding obstacle control_point
  route_packet from to others center = elim (obstacle from to others) [
    | none ↦ line from to
    | some n ↦ quad from (control_point from to center) to
  ]

  -- The attribute `d` of a path.
  unfoldable pub path_d : Route m.Number → String
  unfolding concat
  path_d (line p0 p1) =
      concat
        ("M " ∷ m.text p0.cx ∷ " " ∷ m.text p0.cy ∷ " L " ∷ m.text p1.cx ∷ " " ∷ m.text p1.cy ∷ [])
  path_d (quad p0 ctrl p1) = concat (
      "M "
      ∷ m.text p0.cx
      ∷ " "
      ∷ m.text p0.cy
      ∷ " Q "
      ∷ m.text ctrl.cx
      ∷ " "
      ∷ m.text ctrl.cy
      ∷ " "
      ∷ m.text p1.cx
      ∷ " "
      ∷ m.text p1.cy
      ∷ [])
