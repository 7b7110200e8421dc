-- ===== src/Views/Topology/Scene/Frames.antt =====
-- infra/dashboard/js/views/topologyView.js, the frames of the animation. The length of a path and its
-- points are the browser's, and a parameter.
use atividade_consenso_raft.Base.{ℕ, String, List, [], ◌∷◌}
use atividade_consenso_raft.Geometry.Arithmetic.{Numbers, ◌⊗◌, ◌⊘◌}
use atividade_consenso_raft.Geometry.{Point}
use atividade_consenso_raft.Views.Topology.{Dot}
use atividade_consenso_raft.Views.Topology.Scene.{hidden, part, progress}

module _ ⦃m : Numbers⦄ where
  -- `getTotalLength` and `getPointAtLength` of the path with an attribute `d`.
  pub record Paths : Type 0 where
    pub length_of : String → m.Number
    pub point_at : String → m.Number → Point m.Number

  -- The circle of a dot as it is drawn.
  pub record Circle : Type 0 where
    pub dot : Dot
    pub at : Point m.Number
    pub opacity : ℕ

  -- A dot that has come to the end of its way keeps its place and cannot be seen.
  unfoldable pub move : Paths → ℕ → Circle → Circle
  unfolding progress
  move paths now c = elim (progress now c.dot) [
    | hidden ↦ record c { opacity = 0 }
    | part done whole ↦ record c {
      at =
          paths.point_at c.dot.path ((m.of_nat done ⊘ m.of_nat whole) ⊗ paths.length_of c.dot.path);
      opacity = 1;
    }
  ]

  unfoldable pub tick_animation : Paths → ℕ → List Circle → List Circle
  unfolding move
  tick_animation paths now [] = []
  tick_animation paths now (c ∷ circles) = move paths now c ∷ tick_animation paths now circles
