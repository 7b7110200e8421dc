-- ===== src/Views/Topology/Scene/Boxes.antt =====
-- The boxes of the nodes show what the cards show.
use atividade_consenso_raft.Base.{
  ℕ, String, string_eq, ◌==◌, Bool, true, false, ◌||◌, Option, some, none, is_some, List, [], ◌∷◌,
  ◌++◌, Map, get?, get?-insert, has, ◌≡◌, refl, subst, ◌∙◌, inl, inr, arith, Option-cases,
  Bool-cases, beq_refl, if◌then◌else◌, beq-cases,
}
use atividade_consenso_raft.Geometry.Arithmetic.{Numbers}
use atividade_consenso_raft.Geometry.{Point}
use atividade_consenso_raft.Store.State.{State, NodeState}
use atividade_consenso_raft.Views.NodeCard.{Card, render_card, is_stale_at, fill_card}
use atividade_consenso_raft.Views.Topology.Panes.{
  Box, blank, ensure_nodes, fill_box, change_box, render_nodes,
}
use atividade_consenso_raft.Views.Topology.Scene.{
  place_box, first_layout, place_boxes, relayout, Scene, render,
}

map_box : (Box → Box) → Option Box → Option Box
map_box f none = none
map_box f (some b) = some (f b)

get?-change_box :
    (f : Box → Box) (id j : String) (boxes : Map String Box)
    → get? j (change_box f id boxes) ≡ (if id == j then map_box f (get? j boxes) else get? j boxes)
unfolding map_box
get?-change_box f id j boxes = elim (beq-cases id j) [
  | inl same ↦
      subst
        (λ k.
          get? k (change_box f id boxes)
          ≡ (if id == k then map_box f (get? k boxes) else get? k boxes))
        same (at_id (get? id boxes) refl)
  | inr other ↦ elim (Option-cases (get? id boxes)) [
    | inl e ↦ ground (arith, e, other)
    | inr (b, e) ↦ ground (arith, e, get?-insert id j (f b) boxes, other)
  ]
]
  where
    at_id :
        (o : Option Box)
        → get? id boxes ≡ o
        → get? id (change_box f id boxes)
          ≡ (if id == id then map_box f (get? id boxes) else get? id boxes)
    at_id none e = rw (beq_refl id) (ground (arith, e))
    at_id (some b) e =
        rw (beq_refl id) (ground (arith, e, get?-insert id id (f b) boxes, beq_refl id))

filled_again :
    (s : State) (now : ℕ) (id : String) (n : NodeState) (o : Option Box) (b : Bool)
    → (if b
        then map_box (fill_box s now id n) (map_box (fill_box s now id n) o)
        else map_box (fill_box s now id n) o)
      ≡ map_box (fill_box s now id n) o
unfolding map_box fill_box
filled_again s now id n none b = ground arith
filled_again s now id n (some box) true = refl
filled_again s now id n (some box) false = refl

-- A box that is there is filled, once the loop comes to its node.
get?-render_nodes :
    (s : State) (now : ℕ) (n : NodeState) (id : String) (ids : List String) (boxes : Map String Box)
    → get? id s.nodes ≡ some n
    → get? id (render_nodes s now ids boxes)
      ≡ (if has id ids then map_box (fill_box s now id n) (get? id boxes) else get? id boxes)
unfolding render_nodes has map_box
get?-render_nodes s now n id [] boxes known = refl
get?-render_nodes s now n id (x ∷ ids) boxes known = elim (beq-cases x id) [
  | inl same ↦
      let here : get? x s.nodes ≡ some n = rw same known in
      rw (here, render_nodes)
        (get?-render_nodes s now n id ids (change_box (fill_box s now x n) x boxes) known
          ∙ ground (
            arith,
            get?-change_box (fill_box s now x n) x id boxes,
            filled_again s now id n (get? id boxes) (has id ids),
            same,
            string_eq.test_iff x id,
          ))
  | inr other ↦ elim (Option-cases (get? x s.nodes)) [
    | inl e ↦ rw (e, render_nodes, has, other) (get?-render_nodes s now n id ids boxes known)
    | inr (n', e) ↦
        rw (e, render_nodes, has, other)
          (get?-render_nodes s now n id ids (change_box (fill_box s now x n') x boxes) known
            ∙ rw (get?-change_box, other))
  ]
]

is_some-append :
    (id j : String) (boxes : Map String Box) (b : Box)
    → is_some (get? id (boxes ++ (j, b) ∷ [])) ≡ (is_some (get? id boxes) || j == id)
unfolding get?
is_some-append id j [] b = ground arith
is_some-append id j ((k, c) ∷ boxes) b = ground (arith, is_some-append id j boxes b)

is_some-ensure_nodes :
    (id : String) (ids : List String) (boxes : Map String Box)
    → is_some (get? id (ensure_nodes ids boxes)) ≡ (has id ids || is_some (get? id boxes))
unfolding ensure_nodes has
is_some-ensure_nodes id [] boxes = refl
is_some-ensure_nodes id (x ∷ ids) boxes = elim (Option-cases (get? x boxes)) [
  | inl e ↦
      rw (e, ensure_nodes)
        (is_some-ensure_nodes id ids (boxes ++ (x, blank) ∷ [])
          ∙ ground (arith, is_some-append id x boxes blank))
  | inr (b, e) ↦
      rw (e, ensure_nodes)
        (is_some-ensure_nodes id ids boxes ∙ elim (beq-cases x id) [
          | inl same ↦ ground (arith, e, same, string_eq.test_iff x id)
          | inr other ↦ ground (arith, other)
        ])
]

is_some-change_box :
    (f : Box → Box) (id j : String) (boxes : Map String Box)
    → is_some (get? j (change_box f id boxes)) ≡ is_some (get? j boxes)
unfolding map_box
is_some-change_box f id j boxes = ground (arith, get?-change_box f id j boxes)

module _ ⦃m : Numbers⦄ where
  is_some-place_boxes :
      (positions : Map String (Point m.Number)) (id : String) (ids : List String)
      (boxes : Map String Box)
      → is_some (get? id (place_boxes positions ids boxes)) ≡ is_some (get? id boxes)
  unfolding place_boxes
  is_some-place_boxes positions id [] boxes = refl
  is_some-place_boxes positions id (x ∷ ids) boxes = elim (Option-cases (get? x positions)) [
    | inl e ↦ rw (e, place_boxes) (is_some-place_boxes positions id ids boxes)
    | inr (p, e) ↦
        rw (e, place_boxes)
          (is_some-place_boxes positions id ids (change_box (place_box p) x boxes)
            ∙ is_some-change_box (place_box p) x id boxes)
  ]

  has_box :
      (s : State) (width height : m.Number) (id : String) (scene : Scene)
      → has id s.node_ids ≡ true
      → is_some (
          get? id
            (first_layout s width height
              (record scene { boxes = ensure_nodes s.node_ids scene.boxes })).boxes)
        ≡ true
  unfolding relayout
  has_box s width height id scene listed =
      elim (Bool-cases (m.is_zero scene.width || m.is_zero scene.height)) [
        | inl h ↦ rw (h, relayout) (is_some-place_boxes _ id s.node_ids _ ∙ made)
        | inr h ↦ rw h made
      ]
    where
      made : is_some (get? id (ensure_nodes s.node_ids scene.boxes)) ≡ true
      made = is_some-ensure_nodes id s.node_ids scene.boxes ∙ ground (arith, listed)

  -- After a render a known node of the page has a box with its name, which shows the state that its
  -- card shows: the same role; both or neither say that it is silent, and the box calls it
  -- disconnected exactly if the card offers to heal it; and both or neither say that it is marked
  -- or isolated.
  pub render-card :
      (s : State) (now : ℕ) (width height : m.Number) (scene : Scene) (id : String) (n : NodeState)
      → has id s.node_ids ≡ true
      → get? id s.nodes ≡ some n
      → (b : Box) × (c : Card) × (get? id (render s now width height scene).boxes ≡ some b)
        × (render_card s now id ≡ some c)
        × (b.name ≡ id)
        × (b.data_role ≡ c.role)
        × (b.is_stale ≡ c.is_stale)
        × (b.is_disconnected ≡ c.heal_shown)
        × (b.is_pending ≡ c.is_pending)
  unfolding render relayout render_card is_stale_at fill_box map_box fill_card
  render-card s now width height scene id n listed known =
      let there = has_box s width height id scene listed in
      elim (Option-cases (
        get? id
          (first_layout s width height
            (record scene { boxes = ensure_nodes s.node_ids scene.boxes })).boxes)) [
              | inl e ↦ absurd (ground (arith, there, e))
              | inr (b, e) ↦ (
                fill_box s now id n b,
                fill_card s now id n,
                get?-render_nodes s now n id s.node_ids _ known ∙ rw (listed, e) refl,
                rw (known, render_card) refl,
                refl,
                refl,
                refl,
                refl,
                refl,
              )
            ]
