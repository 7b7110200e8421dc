-- ===== src/Page/Known/Start.antt =====
-- The page keeps the nodes and links that it starts with.
use atividade_consenso_raft.Base.{
  ℕ, String, string_eq, true, false, ◌||◌, List, [], ◌∷◌, ◌++◌, All, All-mono, All-append, beq_refl,
  get?, insert, Map, ◌≡◌, refl, arith, has, is_some, All-has,
}
use atividade_consenso_raft.Store.State.{
  Link, NodeState, link_key, create_store, initial_nodes, initial_node, initial_row, initial_links,
}
use atividade_consenso_raft.Page.{Task, run, start}
use atividade_consenso_raft.Page.Frame.{run-kept}
use atividade_consenso_raft.Page.Known.{
  KnowsNode, HasIds-IsKept, KnowsLink-IsKept, KnowsNode-IsKept, is_some-insert, stays,
}

-- The pairs of a list, as the two loops of createStore and of renderLinks go through them.
abbrev pub pairs_with : String → List String → List (String × String)
pairs_with a [] = []
pairs_with a (b ∷ bs) = (a, b) ∷ pairs_with a bs

abbrev pub pairs : List String → List (String × String)
pairs [] = []
pairs (a ∷ ids) = pairs_with a ids ++ pairs ids

initial_row-grows :
    (a : String) (bs : List String) (now : ℕ) (m : Map String Link) (k : String)
    → is_some (get? k m) ≡ true
    → is_some (get? k (initial_row a bs now m)) ≡ true
unfolding initial_row
initial_row-grows a [] now m k h = h
initial_row-grows a (b ∷ bs) now m k h =
    initial_row-grows a bs now _ k (stays k (link_key a b) _ m h)

initial_links-grows :
    (ids : List String) (now : ℕ) (m : Map String Link) (k : String)
    → is_some (get? k m) ≡ true
    → is_some (get? k (initial_links ids now m)) ≡ true
unfolding initial_links
initial_links-grows [] now m k h = h
initial_links-grows (a ∷ ids) now m k h =
    initial_links-grows ids now _ k (initial_row-grows a ids now m k h)

abbrev pub IsLinked : Map String Link → String × String → Type 0
IsLinked m p = is_some (get? (link_key p.0 p.1) m) ≡ true

initial_row-IsLinked :
    (a : String) (bs : List String) (now : ℕ) (m : Map String Link)
    → All (IsLinked (initial_row a bs now m)) (pairs_with a bs)
unfolding initial_row
initial_row-IsLinked a [] now m = tt
initial_row-IsLinked a (b ∷ bs) now m = (
  initial_row-grows a bs now _ (link_key a b) (
      ground (
        arith,
        is_some-insert {V = Link} (link_key a b) (link_key a b)
            (record { last_resp = now; down = false }) m,
        beq_refl (link_key a b),
      )),
  initial_row-IsLinked a bs now _,
)

initial_links-IsLinked :
    (ids : List String) (now : ℕ) (m : Map String Link)
    → All (IsLinked (initial_links ids now m)) (pairs ids)
unfolding initial_links
initial_links-IsLinked [] now m = tt
initial_links-IsLinked (a ∷ ids) now m =
    All-append (IsLinked (initial_links ids now (initial_row a ids now m))) (pairs_with a ids)
      (pairs ids)
      (All-mono (λ p. initial_links-grows ids now (initial_row a ids now m) (link_key p.0 p.1))
        (pairs_with a ids) (initial_row-IsLinked a ids now m))
      (initial_links-IsLinked ids now (initial_row a ids now m))

is_some-initial_nodes :
    (ids : List String) (m : Map String NodeState) (id : String)
    → is_some (get? id (initial_nodes ids m)) ≡ (has id ids || is_some (get? id m))
unfolding initial_nodes has
is_some-initial_nodes [] m id = refl
is_some-initial_nodes (x ∷ ids) m id = ground (
  arith,
  is_some-initial_nodes ids (insert x (initial_node x) m) id,
  is_some-insert {V = NodeState} x id (initial_node x) m,
)

-- From the start of the page and whatever tasks it does, it keeps the list of the nodes that it
-- started with, knows each of them, and knows the link of every two of them.
pub run_start-known :
    (ids : List String) (date_now perf_now : ℕ) (ts : List Task)
    → ((run (start ids date_now perf_now) ts).state.node_ids ≡ ids)
      × All (λ id. KnowsNode id (run (start ids date_now perf_now) ts).state) ids
      × All (IsLinked (run (start ids date_now perf_now) ts).state.links) (pairs ids)
unfolding start create_store
run_start-known ids date_now perf_now ts = (
  run-kept (HasIds-IsKept ids) ts (start ids date_now perf_now) refl,
  All-mono
      (λ id h.
        run-kept (KnowsNode-IsKept id) ts (start ids date_now perf_now)
          (ground (arith, is_some-initial_nodes ids [] id)))
      ids (All-has ids),
  All-mono (λ p. run-kept (KnowsLink-IsKept (link_key p.0 p.1)) ts (start ids date_now perf_now))
      (pairs ids) (initial_links-IsLinked ids date_now []),
)
