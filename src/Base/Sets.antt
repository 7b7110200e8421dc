-- ===== src/Base/Sets.antt =====
-- A JavaScript `Set`: distinct elements in the order of insertion.
use mathlib.Core.Path.{◌≡◌, refl}
use mathlib.Core.Bool.{Bool, true, false, not, ◌&&◌, ◌||◌}
use mathlib.Core.List.{List, [], ◌∷◌, ◌++◌}
use native.Mathlib.Omega.{arith}
use atividade_consenso_raft.Base.Tests.{Equality, ◌==◌, beq_refl, if◌then◌else◌}
use atividade_consenso_raft.Base.Lists.{select, All, All-mono}

module _ {ℓ} {A : Type ℓ} ⦃e : Equality A⦄ where
  unfoldable pub has : A → List A → Bool
  has a [] = false
  has a (x ∷ xs) = x == a || has a xs

  unfoldable pub add : A → List A → List A
  add a xs = if has a xs then xs else xs ++ a ∷ []

  unfoldable pub delete : A → List A → List A
  delete a [] = []
  delete a (x ∷ xs) = if x == a then delete a xs else x ∷ delete a xs

  -- `for (const x of xs) set.add(x)`
  unfoldable pub add_all : List A → List A → List A
  add_all [] set = set
  add_all (x ∷ xs) set = add_all xs (add x set)

  pub has-append : (a : A) (xs ys : List A) → has a (xs ++ ys) ≡ (has a xs || has a ys)
  unfolding has
  has-append a [] ys = refl
  has-append a (x ∷ xs) ys = ground (arith, has-append a xs ys)

  pub has-add : (a b : A) (xs : List A) → has b (add a xs) ≡ (a == b || has b xs)
  unfolding add has
  has-add a b xs = ground (arith, has-append b xs (a ∷ []), e.test_iff a b)

  pub has-delete : (a b : A) (xs : List A) → has b (delete a xs) ≡ (not (a == b) && has b xs)
  unfolding delete has
  has-delete a b [] = ground arith
  has-delete a b (x ∷ xs) =
      ground (arith, has-delete a b xs, e.test_iff x a, e.test_iff a b, e.test_iff x b)

  pub has-add_all : (b : A) (xs set : List A) → has b (add_all xs set) ≡ (has b xs || has b set)
  unfolding add_all has
  has-add_all b [] set = refl
  has-add_all b (x ∷ xs) set = ground (arith, has-add_all b xs (add x set), has-add x b set)

  pub has-select : (p : A → Bool) (b : A) (xs : List A) → has b (select p xs) ≡ (p b && has b xs)
  unfolding has
  has-select p b [] = ground arith
  has-select p b (x ∷ xs) = ground (arith, has-select p b xs, e.test_iff x b)

  -- A list has all of its elements.
  pub All-has : (xs : List A) → All (λ a. has a xs ≡ true) xs
  unfolding has
  All-has [] = tt
  All-has (x ∷ xs) = (ground (arith, beq_refl x), All-mono (λ a h. ground arith) xs (All-has xs))
