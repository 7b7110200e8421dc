-- ===== src/Views/Banner/Text.antt =====
-- What the text of the banner tells.
use atividade_consenso_raft.Base.{
  String, true, false, List, [], ◌∷◌, map, join, join_injective, All, without, without-join,
  bracketed, join-bracketed_injective, All-mono, concat_cancel, ◌≡◌, refl, ap, ap₂, sym, ◌∙◌, arith,
}
use atividade_consenso_raft.Views.Banner.{format_group, banner_of}

-- A name without a comma and without the bracket that ends a group.
abbrev pub IsPlain : String → Type 0
IsPlain name = (without "," name ≡ true) × (without ")" name ≡ true)

-- A group of such names, with a name in it.
abbrev pub IsGroup : List String → Type 0
IsGroup [] = ⊥
IsGroup (x ∷ xs) = All IsPlain (x ∷ xs)

group_text-IsPlain : (g : List String) → IsGroup g → without ")" (join ", " g) ≡ true
unfolding without
group_text-IsPlain [] v = absurd v
group_text-IsPlain (x ∷ xs) v =
    without-join ")" ", " (x ∷ xs) refl (All-mono (λ s w. w.1) (x ∷ xs) v)

groups_text-IsPlain :
    (gs : List (List String))
    → All IsGroup gs
    → All (λ s. without ")" s ≡ true) (map (join ", ") gs)
groups_text-IsPlain [] v = tt
groups_text-IsPlain (g ∷ gs) v = (group_text-IsPlain g v.0, groups_text-IsPlain gs v.1)

group_injective : (g h : List String) → IsGroup g → IsGroup h → join ", " g ≡ join ", " h → g ≡ h
group_injective [] h v w e = absurd v
group_injective (x ∷ xs) [] v w e = absurd w
group_injective (x ∷ xs) (y ∷ ys) v w e =
    join_injective "," " " x y xs ys (All-mono (λ s u. u.0) (x ∷ xs) v)
      (All-mono (λ s u. u.0) (y ∷ ys) w) e

groups_injective :
    (gs hs : List (List String))
    → All IsGroup gs
    → All IsGroup hs
    → map (join ", ") gs ≡ map (join ", ") hs
    → gs ≡ hs
groups_injective [] [] v w e = refl
groups_injective [] (h ∷ hs) v w e = cc
groups_injective (g ∷ gs) [] v w e = cc
groups_injective (g ∷ gs) (h ∷ hs) v w e =
    ap₂ (λ x xs. x ∷ xs) (group_injective g h v.0 w.0 (cc)) (groups_injective gs hs v.1 w.1 (cc))

map-format_group :
    (gs : List (List String)) → map format_group gs ≡ map (bracketed "(" ")") (map (join ", ") gs)
unfolding format_group
map-format_group [] = refl
map-format_group (g ∷ gs) = ap (format_group g ∷◌) (map-format_group gs)

-- Two banners that look the same show the same groups, if every group has a node and no name of a node
-- has a comma or a closing bracket.
pub banner_of_injective :
    (gs hs : List (List String))
    → All IsGroup gs
    → All IsGroup hs
    → banner_of gs ≡ banner_of hs
    → gs ≡ hs
unfolding banner_of
banner_of_injective [] [] v w e = refl
banner_of_injective [] (h ∷ hs) v w e =
    let off : false ≡ true = ap (λ b. b.is_active) e in absurd (ground arith)
banner_of_injective (g ∷ gs) [] v w e =
    let off : true ≡ false = ap (λ b. b.is_active) e in absurd (ground arith)
banner_of_injective (g ∷ gs) (h ∷ hs) v w e =
    let text = concat_cancel "Partição declarada: " _ _ (ap (λ b. b.text) e) in
    let same =
      ap (join " | ") (sym (map-format_group (g ∷ gs)))
      ∙ text
      ∙ ap (join " | ") (map-format_group (h ∷ hs)) in
    groups_injective (g ∷ gs) (h ∷ hs) v w (
      join-bracketed_injective "(" ")" " " "| " _ _ _ _ (groups_text-IsPlain (g ∷ gs) v)
        (groups_text-IsPlain (h ∷ hs) w) same)
