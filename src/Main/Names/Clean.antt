-- ===== src/Main/Names/Clean.antt =====
-- No name of a node is empty or has a comma or space at its ends.
use Prim.Native.String.{String}
use atividade_consenso_raft.Base.{
  string_eq, nat_eq, ◌==◌, true, not, Option, List, [], ◌∷◌, map, select, without, All, ◌≡◌,
  Bool-cases, inl, inr, trim_both-without, trim_both-trim_both, split_parts,
}
use atividade_consenso_raft.Main.Names.{is_space, trim, configured, node_names}
use atividade_consenso_raft.Main.Names.Written.{IsName}

-- What is said of a name but that it is not empty.
abbrev IsPart : String → Type 0
IsPart s = (without "," s ≡ true) × (trim s ≡ s)

trim-IsPart :
    (parts : List String) → All (λ s. without "," s ≡ true) parts → All IsPart (map trim parts)
unfolding trim
trim-IsPart [] v = tt
trim-IsPart (s ∷ parts) v =
    ((trim_both-without is_space "," s v.0, trim_both-trim_both is_space s), trim-IsPart parts v.1)

select-IsName :
    (parts : List String) → All IsPart parts → All IsName (select (λ s. not (s == "")) parts)
select-IsName [] v = tt
select-IsName (s ∷ parts) v = elim (Bool-cases (s == "")) [
  | inl empty ↦ rw empty (select-IsName parts v.1)
  | inr full ↦
      rw full
        (record { not_empty = full; one_part = v.0.0; trimmed = v.0.1 }, select-IsName parts v.1)
]

-- Whatever the page is configured with, no name of a node is empty or has a comma in it, and none has
-- space at its ends.
pub node_names-IsName : (raft_nodes : Option String) → All IsName (node_names raft_nodes)
unfolding node_names
node_names-IsName raft_nodes =
    select-IsName _ (trim-IsPart _ (split_parts "," (configured raft_nodes)))
