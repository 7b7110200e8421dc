-- ===== src/Views/Summary/Majority.antt =====
-- What the numbers of the summary stand for.
use atividade_consenso_raft.Base.{
  ℕ, ◌+◌, ◌*◌, ◌≤◌, ◌<◌, String, string_eq, true, ◌==◌, Option, none, some, List, [], ◌∷◌, get?,
  length, ltb, has, ◌≡◌, ◌⊎◌, refl, inl, inr, arith, Bool-cases, Option-cases, beq_sound, subst,
  sym, ◌∙◌,
}
use native.Mathlib.Nat.{le_trans, le_refl}
use atividade_consenso_raft.Store.State.{State, NodeState}
use atividade_consenso_raft.Views.Summary.{commit_of, commit_max, summary}

commit_of-grows : (o : Option NodeState) (top : ℕ) → top ≤ commit_of o top
commit_of-grows none top = le_refl top
commit_of-grows (some n) top = ground arith

commit_max-grows : (s : State) (ids : List String) (top : ℕ) → top ≤ commit_max s ids top
unfolding commit_max
commit_max-grows s [] top = le_refl top
commit_max-grows s (id ∷ ids) top =
    le_trans (commit_of-grows (get? id s.nodes) top)
      (commit_max-grows s ids (commit_of (get? id s.nodes) top))

commit_of-covers :
    {o : Option NodeState} {n : NodeState} (top : ℕ) → o ≡ some n → n.commit_idx ≤ commit_of o top
commit_of-covers {o} {n} top h = rw (h, commit_of) (ground arith)

commit_max-covers :
    (s : State) (ids : List String) (top : ℕ) (id : String) (n : NodeState)
    → has id ids ≡ true
    → get? id s.nodes ≡ some n
    → n.commit_idx ≤ commit_max s ids top
unfolding commit_max has
commit_max-covers s [] top id n h known = absurd (ground arith)
commit_max-covers s (j ∷ ids) top id n h known = elim (Bool-cases (j == id)) [
  | inr miss ↦ commit_max-covers s ids _ id n (ground arith) known
  | inl hit ↦
      le_trans
        (commit_of-covers top (subst (λ k. get? k s.nodes ≡ some n) (sym (beq_sound hit)) known))
        (commit_max-grows s ids (commit_of (get? j s.nodes) top))
]

-- A node whose commit index this is.
abbrev pub HasCommit : State → ℕ → Type 0
HasCommit s c = (id : String) × (n : NodeState) × (get? id s.nodes ≡ some n) × (n.commit_idx ≡ c)

commit_of-attained :
    (s : State) (id : String) (top : ℕ)
    → (commit_of (get? id s.nodes) top ≡ top) ⊎ HasCommit s (commit_of (get? id s.nodes) top)
commit_of-attained s id top = elim (Option-cases (get? id s.nodes)) [
  | inl e ↦ inl (rw e)
  | inr (n, e) ↦ elim (Bool-cases (ltb top n.commit_idx)) [
    | inl more ↦ inr (id, n, e, rw (e, commit_of, more))
    | inr less ↦ inl (rw (e, commit_of, less))
  ]
]

commit_max-attained :
    (s : State) (ids : List String) (top : ℕ)
    → (commit_max s ids top ≡ top) ⊎ HasCommit s (commit_max s ids top)
unfolding commit_max
commit_max-attained s [] top = inl refl
commit_max-attained s (id ∷ ids) top =
    elim (commit_max-attained s ids (commit_of (get? id s.nodes) top)) [
      | inr held ↦ inr held
      | inl same ↦ elim (commit_of-attained s id top) [
        | inl low ↦ inl (same ∙ low)
        | inr held ↦ inr (subst (HasCommit s) (sym same) held)
      ]
    ]

-- The summary's quorum is the least number of nodes that is more than half of them.
pub summary-quorum :
    (s : State)
    → (length s.node_ids < 2 * (summary s).quorum)
      × (2 * (summary s).quorum ≤ length s.node_ids + 2)
unfolding summary
summary-quorum s = (omega arith, omega arith)

-- The summary's commit index is at least that of every node of the page that the store knows, and
-- is 0 or the commit index of a node of the store.
pub summary-commit :
    (s : State) (id : String) (n : NodeState)
    → has id s.node_ids ≡ true
    → get? id s.nodes ≡ some n
    → (n.commit_idx ≤ (summary s).commit)
      × (((summary s).commit ≡ 0) ⊎ HasCommit s (summary s).commit)
unfolding summary
summary-commit s id n listed known =
    (commit_max-covers s s.node_ids 0 id n listed known, commit_max-attained s s.node_ids 0)
