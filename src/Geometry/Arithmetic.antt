-- ===== src/Geometry/Arithmetic.antt =====
-- The numbers that infra/dashboard/js/geometry.js counts with, and what it uses of Math. They are a
-- parameter: a browser takes floating-point numbers.
use atividade_consenso_raft.Base.{ℕ, String, Bool, if◌then◌else◌}

pub record Numbers : Type 1 where
  pub Number : Type 0
  pub of_nat : ℕ → Number
  pub pi : Number
  pub add : Number → Number → Number
  pub sub : Number → Number → Number
  pub mul : Number → Number → Number
  pub div : Number → Number → Number
  pub negate : Number → Number
  pub less : Number → Number → Bool
  pub at_most : Number → Number → Bool
  pub is_zero : Number → Bool
  pub cos : Number → Number
  pub sin : Number → Number
  pub hypot : Number → Number → Number
  pub is_falsy : Number → Bool
  pub text : Number → String

module _ ⦃m : Numbers⦄ where
  infixl 65 ◌⊕◌ ◌⊖◌
  infixl 70 ◌⊗◌ ◌⊘◌
  abbrev pub ◌⊕◌ : m.Number → m.Number → m.Number
  a ⊕ b = m.add a b

  abbrev pub ◌⊖◌ : m.Number → m.Number → m.Number
  a ⊖ b = m.sub a b

  abbrev pub ◌⊗◌ : m.Number → m.Number → m.Number
  a ⊗ b = m.mul a b

  abbrev pub ◌⊘◌ : m.Number → m.Number → m.Number
  a ⊘ b = m.div a b

  -- Math.max, Math.min and Math.sign
  abbrev pub larger : m.Number → m.Number → m.Number
  larger a b = if m.less a b then b else a

  abbrev pub smaller : m.Number → m.Number → m.Number
  smaller a b = if m.less b a then b else a

  abbrev pub sign : m.Number → m.Number
  sign a =
      if m.less a (m.of_nat 0)
      then m.negate (m.of_nat 1)
      else if m.less (m.of_nat 0) a
      then m.of_nat 1
      else a

  -- `a || b`
  abbrev pub or_else : m.Number → m.Number → m.Number
  or_else a b = if m.is_falsy a then b else a
