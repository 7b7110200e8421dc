-- ===== src/Views/LogPanel/Rows.antt =====
-- Which rows the matrix has.
use atividade_consenso_raft.Base.{
  ℕ, zero, suc, ◌-◌, ◌≤◌, ◌<◌, min, String, string_eq, nat_eq, ◌==◌, true, Option, none, some, List,
  [], ◌∷◌, map, get?, ltb, leb, or_default, if◌then◌else◌, has, All, All-mono, ◌≡◌, refl, ap, ◌∙◌,
  subst, arith, beq_sound, Bool-cases, inl, inr,
}
use native.Mathlib.Nat.{le_trans, le_refl}
use atividade_consenso_raft.Event.{or_zero}
use atividade_consenso_raft.Store.State.{State, LogEntry, NodeState}
use atividade_consenso_raft.Store.Logs.Commit.{log_of}
use atividade_consenso_raft.Views.LogPanel.{
  Cell, top_of_log, node_top, top_of_nodes, max_idx, min_idx, row_numbers, row, log_panel,
}

top_of_log-covers :
    (arr : List LogEntry) (top : ℕ)
    → All (λ (e : LogEntry). or_zero e.index ≤ top_of_log arr top) arr × (top ≤ top_of_log arr top)
unfolding top_of_log
top_of_log-covers [] top = (tt, le_refl top)
top_of_log-covers (e ∷ arr) top =
    let (all, more) =
      top_of_log-covers arr (if ltb top (or_zero e.index) then or_zero e.index else top) in
    ((ground arith, all), ground arith)

node_top-grows : (o : Option NodeState) (top : ℕ) → top ≤ node_top o top
node_top-grows none top = le_refl top
node_top-grows (some n) top = omega arith

top_of_nodes-grows : (s : State) (ids : List String) (top : ℕ) → top ≤ top_of_nodes s ids top
unfolding top_of_nodes
top_of_nodes-grows s [] top = le_refl top
top_of_nodes-grows s (id ∷ ids) top = le_trans (node_top-grows (get? id s.nodes) top) (
    le_trans (top_of_log-covers (or_default (get? id s.logs) []) (node_top (get? id s.nodes) top)).1
      (top_of_nodes-grows s ids _))

top_of_nodes-covers :
    (s : State) (ids : List String) (top : ℕ) (id : String)
    → has id ids ≡ true
    → All (λ (e : LogEntry). or_zero e.index ≤ top_of_nodes s ids top) (log_of id s)
unfolding top_of_nodes log_of has
top_of_nodes-covers s [] top id h = absurd (ground arith)
top_of_nodes-covers s (j ∷ ids) top id h = elim (Bool-cases (j == id)) [
  | inr miss ↦ top_of_nodes-covers s ids _ id (ground arith)
  | inl hit ↦
      subst
        (λ k. All (λ (e : LogEntry). or_zero e.index ≤ top_of_nodes s (j ∷ ids) top) (log_of k s))
        (beq_sound hit)
        (All-mono (λ e g. le_trans g (top_of_nodes-grows s ids _)) _
          (top_of_log-covers (or_default (get? j s.logs) []) (node_top (get? j s.nodes) top)).0)
]

row-number :
    (s : State) (now : ℕ) (is : List ℕ) → map (λ (r : ℕ × List Cell). r.0) (map (row s now) is) ≡ is
unfolding row
row-number s now [] = refl
row-number s now (i ∷ is) = ap (i ∷◌) (row-number s now is)

-- A number and those below it, as many as are counted.
abbrev pub down_from : (top count : ℕ) → List ℕ
down_from top zero = []
down_from top (suc n) = top ∷ down_from (top - 1) n

unsuc : (k : ℕ) → k ≡ suc k - 1
unsuc k = omega arith

row_numbers-down_from :
    (top lowest : ℕ) → 1 ≤ lowest → row_numbers top lowest ≡ down_from top (suc top - lowest)
unfolding row_numbers
row_numbers-down_from zero lowest h =
    let none_left : 1 - lowest ≡ 0 = omega arith in rw none_left refl
row_numbers-down_from (suc k) lowest h = elim (Bool-cases (leb lowest (suc k))) [
  | inl more ↦
      let count : suc (suc k) - lowest ≡ suc (suc k - lowest) = ground arith in
      rw (more, row_numbers, count)
        (ap (suc k ∷◌)
          (row_numbers-down_from k lowest h ∙ ap (λ j. down_from j (suc k - lowest)) (unsuc k)))
  | inr done ↦
      let none_left : suc (suc k) - lowest ≡ 0 = ground arith in
      rw (done, row_numbers, none_left) refl
]

-- No entry of the node has a greater index, and the node's last_log_idx is not greater.
abbrev pub IsCovered : State → ℕ → String → Type 0
IsCovered s top id =
    All (λ (e : LogEntry). or_zero e.index ≤ top) (log_of id s)
    × (node_top (get? id s.nodes) 0 ≤ top)

node_top-covers : (o : Option NodeState) (top : ℕ) → node_top o 0 ≤ node_top o top
node_top-covers none top = omega arith
node_top-covers (some n) top = omega arith

top_of_nodes-node :
    (s : State) (ids : List String) (top : ℕ) (id : String)
    → has id ids ≡ true
    → node_top (get? id s.nodes) 0 ≤ top_of_nodes s ids top
unfolding top_of_nodes has
top_of_nodes-node s [] top id h = absurd (ground arith)
top_of_nodes-node s (j ∷ ids) top id h = elim (Bool-cases (j == id)) [
  | inr miss ↦ top_of_nodes-node s ids _ id (ground arith)
  | inl hit ↦
      subst (λ k. node_top (get? k s.nodes) 0 ≤ top_of_nodes s (j ∷ ids) top) (beq_sound hit)
        (le_trans (node_top-covers (get? j s.nodes) top) (
          le_trans
            (top_of_log-covers (or_default (get? j s.logs) []) (node_top (get? j s.nodes) top)).1
            (top_of_nodes-grows s ids _)))
]

top_of_log-least :
    (arr : List LogEntry) (top bound : ℕ)
    → All (λ (e : LogEntry). or_zero e.index ≤ bound) arr
    → top ≤ bound
    → top_of_log arr top ≤ bound
unfolding top_of_log
top_of_log-least [] top bound h k = k
top_of_log-least (e ∷ arr) top bound h k =
    top_of_log-least arr (if ltb top (or_zero e.index) then or_zero e.index else top) bound h.1
      (ground (arith, h.0, k))

node_top-least :
    (o : Option NodeState) (top bound : ℕ)
    → node_top o 0 ≤ bound
    → top ≤ bound
    → node_top o top ≤ bound
node_top-least none top bound h k = k
node_top-least (some n) top bound h k = omega (arith, h, k)

top_of_nodes-least :
    (s : State) (ids : List String) (top bound : ℕ)
    → All (IsCovered s bound) ids
    → top ≤ bound
    → top_of_nodes s ids top ≤ bound
unfolding top_of_nodes log_of
top_of_nodes-least s [] top bound h k = k
top_of_nodes-least s (id ∷ ids) top bound h k = top_of_nodes-least s ids _ bound h.1 (
    top_of_log-least (or_default (get? id s.logs) []) (node_top (get? id s.nodes) top) bound h.0.0
      (node_top-least (get? id s.nodes) top bound h.0.1 k))

-- Where there is a table, its first row is that of the least number that no entry's index and no
-- last_log_idx of a node of the page exceeds; below it come the rows of the indices under it, one
-- for each, in descending order, down to 1 or to the thirtieth row.
pub log_panel-rows :
    (s : State) (now : ℕ) (rows : List (ℕ × List Cell)) (id : String) (bound : ℕ)
    → log_panel s now ≡ some rows
    → has id s.node_ids ≡ true
    → All (IsCovered s bound) s.node_ids
    → (map (λ r. r.0) rows ≡ down_from (max_idx s) (min (max_idx s) 30))
      × (0 < max_idx s)
      × IsCovered s (max_idx s) id
      × (max_idx s ≤ bound)
unfolding log_panel max_idx
log_panel-rows s now rows id bound h known covered = elim (Bool-cases (max_idx s == 0)) [
  | inl empty ↦ absurd (ground arith)
  | inr full ↦
      let top = max_idx s in
      let same : rows ≡ map (row s now) (row_numbers top (min_idx top)) = ground arith in
      let count : suc top - min_idx top ≡ min top 30 = omega arith in
      (
        rw (same, row-number)
            (row_numbers-down_from top (min_idx top) (omega arith) ∙ ap (down_from top) count),
        ground (arith, full),
        (top_of_nodes-covers s s.node_ids 0 id known, top_of_nodes-node s s.node_ids 0 id known),
        top_of_nodes-least s s.node_ids 0 bound covered (omega arith),
      )
]
