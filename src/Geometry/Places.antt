-- ===== src/Geometry/Places.antt =====
-- Where layout puts the nodes.
use atividade_consenso_raft.Base.{
  ℕ, suc, ◌+◌, String, string_eq, ◌==◌, true, false, ◌||◌, some, List, [], ◌∷◌, ◌++◌, Map, get?,
  insert, get?-insert, has, All-has, All, All-mono, length, ◌≡◌, refl, ap, ◌∙◌, arith, beq_refl,
}
use atividade_consenso_raft.Geometry.Arithmetic.{Numbers}
use atividade_consenso_raft.Geometry.{Point, place_all, place_at, layout, is_placed}

module _ {A : Type 0} where
  is_placed-insert :
      (x id : String) (p : Point A) (positions : Map String (Point A))
      → is_placed (insert x p positions) id ≡ (x == id || is_placed positions id)
  is_placed-insert x id p positions = ground (arith, get?-insert x id p positions)

  is_placed-place_all :
      (place : ℕ → Point A) (ids : List String) (i : ℕ) (positions : Map String (Point A))
      (id : String)
      → is_placed (place_all place ids i positions) id ≡ (has id ids || is_placed positions id)
  unfolding place_all has
  is_placed-place_all place [] i positions id = refl
  is_placed-place_all place (x ∷ ids) i positions id = ground (
    arith,
    is_placed-place_all place ids (suc i) (insert x (place i) positions) id,
    is_placed-insert x id (place i) positions,
  )

  -- A node keeps its place while others are put behind it.
  get?-place_all :
      (place : ℕ → Point A) (ids : List String) (i : ℕ) (positions : Map String (Point A))
      (id : String)
      → has id ids ≡ false
      → get? id (place_all place ids i positions) ≡ get? id positions
  unfolding place_all has
  get?-place_all place [] i positions id h = refl
  get?-place_all place (x ∷ ids) i positions id h =
      get?-place_all place ids (suc i) (insert x (place i) positions) id (ground arith)
      ∙ ground (arith, get?-insert x id (place i) positions)

  place_all-at :
      (place : ℕ → Point A) (xs ys : List String) (id : String) (i k : ℕ)
      (positions : Map String (Point A))
      → i + length xs ≡ k
      → has id ys ≡ false
      → get? id (place_all place (xs ++ id ∷ ys) i positions) ≡ some (place k)
  unfolding place_all
  place_all-at place [] ys id i k positions e h =
      get?-place_all place ys (suc i) (insert id (place i) positions) id h
      ∙ get?-insert id id (place i) positions
      ∙ rw (beq_refl id) (ap (λ j. some (place j)) (omega (arith, e)))
  place_all-at place (x ∷ xs) ys id i k positions e h =
      place_all-at place xs ys id (suc i) k (insert x (place i) positions) (omega (arith, e)) h

module _ ⦃m : Numbers⦄ where
  pub is_placed-layout :
      (ids : List String) (width height : m.Number) (id : String)
      → is_placed (layout ids width height).positions id ≡ has id ids
  unfolding layout get?
  is_placed-layout ids width height id = is_placed-place_all _ ids 0 [] id ∙ ground arith

  pub layout-All_placed :
      (ids : List String) (width height : m.Number)
      → All (λ id. is_placed (layout ids width height).positions id ≡ true) ids
  layout-All_placed ids width height =
      All-mono (λ id h. is_placed-layout ids width height id ∙ h) ids (All-has ids)

  -- In a layout the nodes of the list have a place, and no others; and a node that stands behind `k`
  -- others, and not once more behind that, has the `k`-th place on the circle.
  pub layout-places :
      (xs ys : List String) (id other : String) (width height : m.Number)
      → has id ys ≡ false
      → (get? id (layout (xs ++ id ∷ ys) width height).positions
          ≡ some (
              place_at
                (layout (xs ++ id ∷ ys) width height).center
                (layout (xs ++ id ∷ ys) width height).radius
                (length (xs ++ id ∷ ys))
                (length xs)))
        × (is_placed (layout (xs ++ id ∷ ys) width height).positions other
            ≡ has other (xs ++ id ∷ ys))
  unfolding layout get?
  layout-places xs ys id other width height h = (
    place_all-at _ xs ys id 0 (length xs) [] (omega arith) h,
    is_placed-layout (xs ++ id ∷ ys) width height other,
  )
