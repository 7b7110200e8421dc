-- ===== src/Node/Start.antt =====
-- infra/node/main.go: the settings of a node, from the environment and the list of its peers.
pub mod Peers
use Prim.Native.Char.{Char, code}
use Prim.Native.String.{String, ◌∷◌ as ◌∷ₛ◌}
use atividade_consenso_raft.Base.{
  Bool, true, false, not, ◌&&◌, ◌||◌, Option, none, some, List, [], ◌∷◌, nat_eq, string_eq, ◌==◌,
  has, leb, same_char, split, trim_both, or_default, if◌then◌else◌,
}

-- `os.Getenv` gives the empty text where nothing is set.
unfoldable pub env_or : (String → String) → String → String → String
env_or getenv key def = if getenv key == "" then def else getenv key

-- `strconv.ParseBool`
abbrev pub parse_bool : String → Option Bool
parse_bool s =
    if has s ("1" ∷ "t" ∷ "T" ∷ "TRUE" ∷ "true" ∷ "True" ∷ [])
    then some true
    else if has s ("0" ∷ "f" ∷ "F" ∷ "FALSE" ∷ "false" ∷ "False" ∷ [])
    then some false
    else none

unfoldable pub env_bool : (String → String) → String → Bool → Bool
unfolding has
env_bool getenv key def =
    if getenv key == "" then def else elim (parse_bool (getenv key)) [ none ↦ def | some b ↦ b ]

-- `strings.TrimSpace` and `unicode.IsSpace`
unfoldable pub is_space : Char → Bool
unfolding has
is_space c =
    (leb 9 (code c) && leb (code c) 13)
    || (leb 8192 (code c) && leb (code c) 8202)
    || has (code c) (32 ∷ 133 ∷ 160 ∷ 5760 ∷ 8232 ∷ 8233 ∷ 8239 ∷ 8287 ∷ 12288 ∷ [])

unfoldable pub trim_space : String → String
unfolding is_space trim_both
trim_space s = trim_both is_space s

-- `strings.SplitN(s, "=", 2)`: what is before and behind the first sign, none if there is none.
unfoldable pub cut_at : Char → String → Option (String × String)
cut_at c String.[] = none
cut_at c (d ∷ₛ s) =
    let rest = cut_at c s in
    if same_char d c
    then some ("", s)
    else elim rest [ none ↦ none | some (a, b) ↦ some (d ∷ₛ a, b) ]

-- `raft.Server`
pub record Server : Type 0 where
  pub id : String
  pub address : String

-- The server of an item, before the others.
abbrev pub add_server : Option (String × String) → List Server → List Server
add_server none servers = servers
add_server (some (id, address)) servers = record { id = id; address = address } ∷ servers

unfoldable pub servers_of : List String → List Server
unfolding trim_space cut_at
servers_of [] = []
servers_of (item ∷ items) =
    let rest = servers_of items in
    if trim_space item == "" then rest else add_server (cut_at "=" (trim_space item)) rest

unfoldable pub parse_peers : String → List Server
unfolding servers_of split
parse_peers s = servers_of (split "," s)

-- The address of the first item that names the node, if any.
abbrev pub own_address : String → Option (String × String) → Option String → Option String
own_address node_id none later = later
own_address node_id (some (id, address)) later = if id == node_id then some address else later

unfoldable pub address_in : String → List String → Option String
unfolding trim_space cut_at
address_in node_id [] = none
address_in node_id (item ∷ items) =
    own_address node_id (cut_at "=" (trim_space item)) (address_in node_id items)

-- What is handed to `net.ResolveTCPAddr`.
unfoldable pub resolve_advertise : String → String → String → String
unfolding address_in split
resolve_advertise node_id raft_addr peers =
    or_default (address_in node_id (split "," peers)) raft_addr
