-- ===== src/Views/Topology/Scene/Lines.antt =====
-- The lines that the page draws between its nodes.
use atividade_consenso_raft.Base.{
  ℕ, suc, ◌+◌, ◌*◌, String, string_eq, Bool, true, Option, some, none, List, [], ◌∷◌, ◌++◌, map,
  map-append, Map, get?, length, length-append, All, ◌≡◌, refl, ap, ap₂, sym, ◌∙◌, inl, inr, arith,
  Option-cases, length-map, All-split,
}
use atividade_consenso_raft.Geometry.{Point, is_placed, layout}
use atividade_consenso_raft.Geometry.Places.{layout-All_placed}
use atividade_consenso_raft.Geometry.Arithmetic.{Numbers}
use atividade_consenso_raft.Store.State.{State, Link, link_key}
use atividade_consenso_raft.Page.{Task, run, start}
use atividade_consenso_raft.Page.Known.Start.{pairs_with, pairs, IsLinked, run_start-known}
use atividade_consenso_raft.Views.Topology.Scene.{
  LinkLine, line_of_pair, lines_of_row, lines_of, render_links,
}

-- The ends of a line and whether it is broken.
abbrev pub LineParts : Type 0 → Type 0
LineParts A = Option (Point A) × Option (Point A) × Option Bool

abbrev pub parts_of : {A : Type 0} → LinkLine A → LineParts A
parts_of l = (some l.p1, some l.p2, some l.is_broken)

abbrev pub is_down : Option Link → Option Bool
is_down none = none
is_down (some l) = some l.down

-- The places of two nodes, and whether their link is down.
abbrev pub pair_parts : {A : Type 0} → State → Map String (Point A) → String × String → LineParts A
pair_parts s positions p =
    (get? p.0 positions, get? p.1 positions, is_down (get? (link_key p.0 p.1) s.links))

module _ {A : Type 0} (s : State) (positions : Map String (Point A)) where
  abbrev HasPlace : String → Type 0
  HasPlace id = is_placed positions id ≡ true

  line_of_pair-parts :
      (a b : String)
      → IsLinked s.links (a, b)
      → HasPlace a
      → HasPlace b
      → map parts_of (line_of_pair s positions a b) ≡ pair_parts s positions (a, b) ∷ []
  unfolding line_of_pair
  line_of_pair-parts a b h p q = elim (Option-cases (get? (link_key a b) s.links)) [
    | inl e ↦ absurd (ground arith)
    | inr (l, el) ↦ elim (Option-cases (get? a positions)) [
      | inl e ↦ absurd (ground arith)
      | inr (pa, ea) ↦ elim (Option-cases (get? b positions)) [
        | inl e ↦ absurd (ground arith)
        | inr (pb, eb) ↦ rw (el, ea, eb, line_of_pair)
      ]
    ]
  ]

  lines_of_row-parts :
      (a : String) (bs : List String)
      → All (IsLinked s.links) (pairs_with a bs)
      → HasPlace a
      → All HasPlace bs
      → map parts_of (lines_of_row s positions a bs)
        ≡ map (pair_parts s positions) (pairs_with a bs)
  unfolding lines_of_row
  lines_of_row-parts a [] h p q = refl
  lines_of_row-parts a (b ∷ bs) h p q =
      map-append parts_of (line_of_pair s positions a b) (lines_of_row s positions a bs)
      ∙ ap₂ (λ xs ys. xs ++ ys) (line_of_pair-parts a b h.0 p q.0)
          (lines_of_row-parts a bs h.1 p q.1)

  lines_of-parts :
      (ids : List String)
      → All (IsLinked s.links) (pairs ids)
      → All HasPlace ids
      → map parts_of (lines_of s positions ids) ≡ map (pair_parts s positions) (pairs ids)
  unfolding lines_of
  lines_of-parts [] h q = refl
  lines_of-parts (a ∷ ids) h q =
      let (row, rest) = All-split (IsLinked s.links) (pairs_with a ids) (pairs ids) h in
      map-append parts_of (lines_of_row s positions a ids) (lines_of s positions ids)
      ∙ ap₂ (λ xs ys. xs ++ ys) (lines_of_row-parts a ids row q.0 q.1) (lines_of-parts ids rest q.1)
      ∙ sym (map-append (pair_parts s positions) (pairs_with a ids) (pairs ids))

length-pairs_with : (a : String) (bs : List String) → length (pairs_with a bs) ≡ length bs
length-pairs_with a [] = refl
length-pairs_with a (b ∷ bs) = ap suc (length-pairs_with a bs)

-- n (n - 1) / 2
length-pairs : (ids : List String) → 2 * length (pairs ids) + length ids ≡ length ids * length ids
length-pairs [] = refl
length-pairs (a ∷ ids) =
    grind (
      arith,
      length-pairs ids,
      length-append (pairs_with a ids) (pairs ids),
      length-pairs_with a ids,
    )

-- From the start of the page and whatever tasks it does, with its nodes laid out, it draws a line
-- for every two of its nodes, each once (n (n - 1) / 2 of them for n nodes), from the place of the
-- one to the place of the other, and broken exactly if their link is down.
pub render_links_complete :
    ⦃m : Numbers⦄ (ids : List String) (date_now perf_now : ℕ) (ts : List Task)
    (width height : m.Number)
    → (map parts_of (
          render_links
            (run (start ids date_now perf_now) ts).state
            (layout ids width height).positions)
        ≡ map
            (pair_parts
              (run (start ids date_now perf_now) ts).state
              (layout ids width height).positions)
            (pairs ids))
      × (2
              * length (
                  render_links
                    (run (start ids date_now perf_now) ts).state
                    (layout ids width height).positions)
            + length ids
          ≡ length ids * length ids)
render_links_complete ⦃m⦄ ids date_now perf_now ts width height = (drawn, count)
  where
    s : State
    s = (run (start ids date_now perf_now) ts).state

    places : Map String (Point m.Number)
    places = (layout ids width height).positions

    drawn : map parts_of (render_links s places) ≡ map (pair_parts s places) (pairs ids)
    drawn =
        let (same, nodes, links) = run_start-known ids date_now perf_now ts in
        ap (λ xs. map parts_of (lines_of s places xs)) same
        ∙ lines_of-parts s places ids links (layout-All_placed ids width height)

    count : 2 * length (render_links s places) + length ids ≡ length ids * length ids
    count =
        ap (λ n. 2 * n + length ids)
          (sym (length-map parts_of (render_links s places))
            ∙ ap length drawn
            ∙ length-map (pair_parts s places) (pairs ids))
        ∙ length-pairs ids
