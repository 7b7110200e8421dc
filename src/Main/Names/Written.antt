-- ===== src/Main/Names/Written.antt =====
-- The names of the nodes are those that are written.
use Prim.Native.String.{String}
use atividade_consenso_raft.Base.{
  string_eq, nat_eq, ◌==◌, true, false, not, some, List, [], ◌∷◌, map, select, without, join, All,
  ◌≡◌, refl, ap, sym, ◌∙◌, arith, Bool-cases, inl, inr, beq_sound, split, split-join, All-mono,
}
use atividade_consenso_raft.Main.Names.{trim, node_names}

-- A name of a node: not empty, without a comma, and without space at its ends.
pub record IsName (s : String) : Type 0 where
  pub not_empty : (s == "") ≡ false
  pub one_part : without "," s ≡ true
  pub trimmed : trim s ≡ s

split_names :
    (a : String) (names : List String)
    → All IsName (a ∷ names)
    → split "," (join "," (a ∷ names)) ≡ a ∷ names
split_names a names v = split-join a names (All-mono (λ s (n : IsName s). n.one_part) (a ∷ names) v)

kept_names :
    (names : List String) → All IsName names → select (λ s. not (s == "")) (map trim names) ≡ names
kept_names [] v = refl
kept_names (a ∷ names) v = rw (v.0.trimmed, v.0.not_empty) (ap (a ∷◌) (kept_names names v.1))

join_not_empty :
    (a : String) (names : List String)
    → All IsName (a ∷ names)
    → (join "," (a ∷ names) == "") ≡ false
unfolding split
join_not_empty a names v = elim (Bool-cases (join "," (a ∷ names) == "")) [
  | inr full ↦ full
  | inl empty ↦
      let parts : Path (List String) (a ∷ names) ("" ∷ []) =
        sym (split_names a names v) ∙ ap (split ",") (beq_sound empty) in
      let none_there : a ≡ "" = ap first parts in
      let seen : (a == "") ≡ true = (string_eq.test_iff a "").1 none_there in
      absurd (ground (arith, v.0.not_empty, seen))
]
  where
    first : List String → String
    first [] = ""
    first (x ∷ xs) = x

-- A page that is configured with a list of one or more names, joined by commas, has these nodes, in
-- this order, if no name is empty or has a comma in it or space at its ends.
pub node_names-join :
    (a : String) (names : List String)
    → All IsName (a ∷ names)
    → node_names (some (join "," (a ∷ names))) ≡ a ∷ names
unfolding node_names
node_names-join a names v =
    rw (join_not_empty a names v, split_names a names v) (kept_names (a ∷ names) v)
