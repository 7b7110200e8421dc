-- ===== src/Base/Duplicates.antt =====
-- Lists without repetition, as the operations on sets keep them.
use mathlib.Core.Path.{◌≡◌, refl, subst}
use mathlib.Core.Bool.{Bool, false}
use mathlib.Core.List.{List, [], ◌∷◌, ◌++◌, map, append-nil, append_assoc}
use Prim.Native.Nat.{ℕ, zero, suc}
use native.Mathlib.Omega.{arith}
use atividade_consenso_raft.Base.Tests.{Equality}
use atividade_consenso_raft.Base.Lists.{select, drop}
use atividade_consenso_raft.Base.Sets.{
  has, add, delete, add_all, has-delete, has-select, has-append,
}

module _ {ℓ} {A : Type ℓ} ⦃e : Equality A⦄ where
  abbrev pub Distinct : List A → Type ℓ
  Distinct [] = Unit
  Distinct (x ∷ xs) = (has x xs ≡ false) × Distinct xs

  pub Distinct-snoc :
      (xs : List A) (a : A) → has a xs ≡ false → Distinct xs → Distinct (xs ++ a ∷ [])
  unfolding has
  Distinct-snoc [] a h d = (refl, tt)
  Distinct-snoc (x ∷ xs) a h d = (
    ground (arith, has-append x xs (a ∷ []), e.test_iff x a, e.test_iff a x),
    Distinct-snoc xs a (ground arith) d.1,
  )

  pub Distinct-add : (a : A) (xs : List A) → Distinct xs → Distinct (add a xs)
  unfolding add
  Distinct-add a xs d = ground (arith, Distinct-snoc xs a)

  pub Distinct-delete : (a : A) (xs : List A) → Distinct xs → Distinct (delete a xs)
  unfolding delete
  Distinct-delete a [] d = tt
  Distinct-delete a (x ∷ xs) d = ground (arith, has-delete a x xs, Distinct-delete a xs d.1)

  pub Distinct-add_all : (xs set : List A) → Distinct set → Distinct (add_all xs set)
  unfolding add_all
  Distinct-add_all [] set d = d
  Distinct-add_all (x ∷ xs) set d = Distinct-add_all xs (add x set) (Distinct-add x set d)

  pub Distinct-select : (p : A → Bool) (xs : List A) → Distinct xs → Distinct (select p xs)
  Distinct-select p [] d = tt
  Distinct-select p (x ∷ xs) d = ground (arith, has-select p x xs, Distinct-select p xs d.1)

  pub Distinct-drop : (n : ℕ) (xs : List A) → Distinct xs → Distinct (drop n xs)
  Distinct-drop zero xs d = d
  Distinct-drop (suc n) [] d = tt
  Distinct-drop (suc n) (x ∷ xs) d = Distinct-drop n xs d.1

module _ {ℓ} {A : Type ℓ} ⦃e : Equality A⦄ where
  pub has-drop : (n : ℕ) (a : A) (xs : List A) → has a xs ≡ false → has a (drop n xs) ≡ false
  unfolding has
  has-drop zero a xs h = h
  has-drop (suc n) a [] h = refl
  has-drop (suc n) a (x ∷ xs) h = has-drop n a xs (ground arith)

  pub Distinct-swap : (xs ys : List A) → Distinct (xs ++ ys) → Distinct (ys ++ xs)
  Distinct-swap [] ys d = rw append-nil d
  Distinct-swap (x ∷ xs) ys d = subst Distinct (append_assoc ys (x ∷ []) xs) (
      Distinct-swap xs (ys ++ x ∷ [])
        (subst Distinct (append_assoc xs ys (x ∷ [])) (Distinct-snoc (xs ++ ys) x d.0 d.1)))

  pub absent_before : (a : A) (xs ys : List A) → Distinct (xs ++ a ∷ ys) → has a xs ≡ false
  unfolding has
  absent_before a [] ys d = refl
  absent_before a (x ∷ xs) ys d =
      ground
        (arith, absent_before a xs ys d.1, has-append x xs (a ∷ ys), e.test_iff x a, e.test_iff a x)

pub map-drop {ℓ κ} :
    {A : Type ℓ} {B : Type κ} (f : A → B) (n : ℕ) (xs : List A)
    → map f (drop n xs) ≡ drop n (map f xs)
map-drop f zero xs = refl
map-drop f (suc n) [] = refl
map-drop f (suc n) (x ∷ xs) = map-drop f n xs

-- A selection by a value of the elements.
pub map-select {ℓ κ} :
    {A : Type ℓ} {B : Type κ} (f : A → B) (p : B → Bool) (xs : List A)
    → map f (select (λ x. p (f x)) xs) ≡ select p (map f xs)
map-select f p [] = refl
map-select f p (x ∷ xs) = ground (arith, map-select f p xs)
