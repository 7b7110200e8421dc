-- ===== src/Geometry/Ways.antt =====
-- The way of a packet: when it is straight, and to which side it bends.
use atividade_consenso_raft.Base.{
  ℕ, true, false, not, List, [], ◌∷◌, every, ◌≡◌, refl, ap, sym, ◌∙◌, subst, ap₂, if_case,
  Bool-cases, inl, inr, if◌then◌else◌, max,
}
use atividade_consenso_raft.Config.{node_box, node_exclusion_pad}
use atividade_consenso_raft.Geometry.Arithmetic.{Numbers, ◌⊕◌, ◌⊖◌, ◌⊗◌, sign, or_else}
use atividade_consenso_raft.Geometry.{
  Point, line, quad, half, exclusion, is_hit, obstacle, middle, control_point, route_packet,
}

module _ ⦃m : Numbers⦄ where
  -- A packet goes straight exactly if no other node is hit, and else bends; both ways join its two nodes.
  pub route_packet_lem :
      (from to : Point m.Number) (others : List (Point m.Number)) (center : Point m.Number)
      → route_packet from to others center ≡ (
          if every (λ n. not (is_hit from to n)) others
          then line from to
          else quad from (control_point from to center) to)
  unfolding route_packet obstacle
  route_packet_lem from to [] center = refl
  route_packet_lem from to (n ∷ others) center = elim (Bool-cases (is_hit from to n)) [
    | inl hit ↦ rw (hit, route_packet, obstacle)
    | inr free ↦ rw (free, route_packet, obstacle) (route_packet_lem from to others center)
  ]

  -- The laws of real numbers that the side of a bend depends on.
  pub record Laws : Type 0 where
    pub mul_comm : (a b : m.Number) → a ⊗ b ≡ b ⊗ a
    pub mul_assoc : (a b c : m.Number) → a ⊗ b ⊗ c ≡ a ⊗ (b ⊗ c)
    pub mul-add : (a b c : m.Number) → a ⊗ (b ⊕ c) ≡ a ⊗ b ⊕ a ⊗ c
    pub sub-add : (a b : m.Number) → a ⊕ b ⊖ a ≡ b
    pub one-mul : (a : m.Number) → m.of_nat 1 ⊗ a ≡ a
    pub negate-mul :
        (a : m.Number)
        → m.less a (m.of_nat 0) ≡ true
        → m.less (m.negate (m.of_nat 1) ⊗ a) (m.of_nat 0) ≡ false
    pub not_negative : (n : ℕ) → m.less (m.of_nat n) (m.of_nat 0) ≡ false
    pub add-not_negative :
        (a b : m.Number)
        → m.less a (m.of_nat 0) ≡ false
        → m.less b (m.of_nat 0) ≡ false
        → m.less (a ⊕ b) (m.of_nat 0) ≡ false
    pub mul-not_negative :
        (a b : m.Number)
        → m.less a (m.of_nat 0) ≡ false
        → m.less b (m.of_nat 0) ≡ false
        → m.less (a ⊗ b) (m.of_nat 0) ≡ false
    pub half-not_negative :
        (a : m.Number) → m.less a (m.of_nat 0) ≡ false → m.less (half a) (m.of_nat 0) ≡ false
    pub minus_one : m.is_falsy (m.negate (m.of_nat 1)) ≡ false

  module _ (laws : Laws) where
    abbrev Positive : m.Number → Type 0
    Positive a = m.less a (m.of_nat 0) ≡ false

    -- The factor of the side makes a product that is not negative.
    side-Positive : (d : m.Number) → Positive (or_else (sign d) (m.of_nat 1) ⊗ d)
    side-Positive d = elim (Bool-cases (m.less d (m.of_nat 0))) [
      | inl below ↦ rw (below, laws.minus_one) (laws.negate-mul d below)
      | inr above ↦ elim (Bool-cases (m.less (m.of_nat 0) d)) [
        | inl beyond ↦
            rw (above, beyond)
              (if_case (λ x. Positive (x ⊗ d)) (m.is_falsy (m.of_nat 1)) (one above) (one above))
        | inr zero ↦
            rw (above, zero)
              (if_case (λ x. Positive (x ⊗ d)) (m.is_falsy d) (one above)
                (laws.mul-not_negative d d above above))
      ]
    ]
      where
        one : Positive d → Positive (m.of_nat 1 ⊗ d)
        one above = subst Positive (sym (laws.one-mul d)) above

    offset_lem : Positive (m.of_nat 2 ⊗ exclusion ⊕ m.of_nat 12)
    offset_lem =
        laws.add-not_negative _ _
          (laws.mul-not_negative _ _ (laws.not_negative 2) (
            laws.add-not_negative _ _
              (laws.half-not_negative _ (laws.not_negative (max node_box.w node_box.h)))
              (laws.not_negative node_exclusion_pad)))
          (laws.not_negative 12)

    -- A scaled vector has the scaled product.
    scaled : (a b c d o k : m.Number) → a ⊗ o ⊗ k ⊗ c ⊕ b ⊗ o ⊗ k ⊗ d ≡ o ⊗ (k ⊗ (a ⊗ c ⊕ b ⊗ d))
    scaled a b c d o k =
        ap₂ (λ x y. x ⊕ y) (regroup a c) (regroup b d)
        ∙ sym (laws.mul-add o (k ⊗ (a ⊗ c)) (k ⊗ (b ⊗ d)))
        ∙ ap (λ x. o ⊗ x) (sym (laws.mul-add k (a ⊗ c) (b ⊗ d)))
      where
        regroup : (x y : m.Number) → x ⊗ o ⊗ k ⊗ y ≡ o ⊗ (k ⊗ (x ⊗ y))
        regroup x y =
            ap (λ z. z ⊗ y) (laws.mul_assoc x o k ∙ laws.mul_comm x (o ⊗ k))
            ∙ laws.mul_assoc (o ⊗ k) x y
            ∙ laws.mul_assoc o k (x ⊗ y)

    -- Over numbers that obey the laws of real numbers a way bends away from the centre: the step
    -- from the middle to the point of control does not point towards the centre (its product with
    -- the direction from the centre to the middle is not negative).
    pub control_point-away :
        (from to center : Point m.Number)
        → m.less
            (((control_point from to center).cx ⊖ (middle from to).cx)
                ⊗ ((middle from to).cx ⊖ center.cx)
              ⊕ ((control_point from to center).cy ⊖ (middle from to).cy)
                ⊗ ((middle from to).cy ⊖ center.cy))
            (m.of_nat 0)
          ≡ false
    unfolding control_point
    control_point-away from to center =
        let dir_x = (middle from to).cx ⊖ center.cx in
        let dir_y = (middle from to).cy ⊖ center.cy in
        subst Positive
          (sym (
            ap₂ (λ x y. x ⊗ dir_x ⊕ y ⊗ dir_y) (laws.sub-add _ _) (laws.sub-add _ _)
            ∙ scaled _ _ _ _ _ _))
          (laws.mul-not_negative _ _ offset_lem (side-Positive _))
