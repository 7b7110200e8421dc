-- ===== src/Node/Start/Peers.antt =====
-- infra/node/main.go: the list of peers.
use Prim.Native.Char.{Char}
use Prim.Native.String.{String, ◌∷◌ as ◌∷ₛ◌, ◌++◌ as ◌++ₛ◌}
use Prim.Native.String.append
use atividade_consenso_raft.Base.{
  true, Option, none, some, List, [], ◌∷◌, map, nat_eq, string_eq, ◌==◌, All, join, split,
  split-join, without, beq_sound, or_default, ◌≡◌, refl, ap, ◌∙◌, sym, arith, Bool-cases,
  Option-cases, inl, inr, if◌then◌else◌,
}
use atividade_consenso_raft.Node.Start.{
  Server, servers_of, parse_peers, address_in, resolve_advertise, trim_space, cut_at,
}

-- The address of the first server with an id.
abbrev pub address_of : String → List Server → Option String
address_of id [] = none
address_of id (s ∷ servers) = if s.id == id then some s.address else address_of id servers

address_in-servers_of :
    (node_id : String) (items : List String)
    → address_in node_id items ≡ address_of node_id (servers_of items)
unfolding address_in servers_of
address_in-servers_of node_id [] = refl
address_in-servers_of node_id (item ∷ items) = elim (Bool-cases (trim_space item == "")) [
  | inl empty ↦
      let gone : trim_space item ≡ "" = beq_sound empty in
      rw gone (address_in-servers_of node_id items)
  | inr full ↦ elim (Option-cases (cut_at "=" (trim_space item))) [
    | inl no_sign ↦ rw (full, no_sign) (address_in-servers_of node_id items)
    | inr ((id, address), parts) ↦
        rw (full, parts)
          (ap (λ r. if id == node_id then some address else r)
            (address_in-servers_of node_id items))
  ]
]

-- A node advertises the address that the list of peers gives it, the first one if there are several, and
-- the address that it binds to if the list does not name it.
pub resolve_advertise-parse_peers :
    (node_id raft_addr peers : String)
    → resolve_advertise node_id raft_addr peers
      ≡ or_default (address_of node_id (parse_peers peers)) raft_addr
unfolding resolve_advertise parse_peers
resolve_advertise-parse_peers node_id raft_addr peers =
    ap (λ o. or_default o raft_addr) (address_in-servers_of node_id (split "," peers))

-- `id=address`
abbrev pub written : Server → String
written s = s.id ++ₛ ("=" ∷ₛ s.address)

-- A server as it is written: the text has no comma and no white space at its ends, and the id no "=".
pub record IsServer (s : Server) : Type 0 where
  pub one_id : without "=" s.id ≡ true
  pub one_item : without "," (written s) ≡ true
  pub trimmed : trim_space (written s) ≡ written s

cut_at-written :
    (c : Char) (a b : String) → without c a ≡ true → cut_at c (a ++ₛ (c ∷ₛ b)) ≡ some (a, b)
unfolding cut_at without
cut_at-written c String.[] b h = ap (cut_at c) (append.nil (c ∷ₛ b)) ∙ ground (arith)
cut_at-written c (d ∷ₛ a) b h =
    ap (cut_at c) (append.cons d a (c ∷ₛ b)) ∙ ground (arith, cut_at-written c a b)

no_sign : (s : Server) → written s ≡ "" → cut_at "=" (written s) ≡ some (s.id, s.address) → ⊥
unfolding cut_at
no_sign s empty parts = cc (sym (ap (cut_at "=") empty) ∙ parts)

items :
    (servers : List Server)
    → All IsServer servers
    → All (λ t. without "," t ≡ true) (map written servers)
items [] v = tt
items (s ∷ servers) v = (v.0.one_item, items servers v.1)

servers_of-written :
    (servers : List Server) → All IsServer servers → servers_of (map written servers) ≡ servers
unfolding servers_of
servers_of-written [] v = refl
servers_of-written (s ∷ servers) v =
    let parts = cut_at-written "=" s.id s.address v.0.one_id in
    elim (Bool-cases (written s == "")) [
      | inr full ↦ rw (v.0.trimmed, full, parts) (ap (s ∷◌) (servers_of-written servers v.1))
      | inl empty ↦ absurd (no_sign s (beq_sound empty) parts)
    ]

-- A list of one or more peers that is written as the environment has it, `id=address` with commas
-- between, gives these servers, in this order.
pub parse_peers-join :
    (s : Server) (servers : List Server)
    → All IsServer (s ∷ servers)
    → parse_peers (join "," (map written (s ∷ servers))) ≡ s ∷ servers
unfolding parse_peers
parse_peers-join s servers v =
    ap servers_of (split-join (written s) (map written servers) (items (s ∷ servers) v))
    ∙ servers_of-written (s ∷ servers) v
