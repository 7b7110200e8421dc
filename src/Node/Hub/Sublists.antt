-- ===== src/Node/Hub/Sublists.antt =====
-- Lists that leave out elements of another, for the channels of infra/node/event.go.
use atividade_consenso_raft.Base.{List, [], ◌∷◌}

-- The list without some of its elements, in the same order.
pub data Sub {ℓ} {A : Type ℓ} : List A → List A → Type ℓ where
  none_left : Sub [] []
  keep : {x : A} {xs ys : List A} → Sub xs ys → Sub (x ∷ xs) (x ∷ ys)
  skip : {y : A} {xs ys : List A} → Sub xs ys → Sub xs (y ∷ ys)
