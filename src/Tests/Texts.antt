-- ===== src/Tests/Texts.antt =====
-- The theorems on the texts of the views at concrete inputs.
use atividade_consenso_raft.Base.{
  concat, join, bracketed, map, decimal, none, string_eq, nat_eq, String, some, none, List, [], ◌∷◌,
  ◌≡◌, refl, arith, ap, length, ℕ, zero, suc,
}
use atividade_consenso_raft.Config.{stream_window}
use atividade_consenso_raft.Event.{Event, bare}
use atividade_consenso_raft.Views.Banner.{banner_of, format_group}
use atividade_consenso_raft.Views.Stream.{shorten}
use atividade_consenso_raft.Views.Stream.Window.{take, shorten-enough}
use atividade_consenso_raft.Views.Stream.Format.{format_state, format_rpc_send, entries_text}
use atividade_consenso_raft.Controls.{apply_text}
use atividade_consenso_raft.Base.{split}
use atividade_consenso_raft.Main.Names.{node_names, trim}
use atividade_consenso_raft.Store.State.{initial_node}
use atividade_consenso_raft.Views.NodeCard.Text.{match_text}
use atividade_consenso_raft.Tests.Data.{append_event, apply_event}

abbrev many : ℕ → List Event
many zero = []
many (suc n) = apply_event ∷ many n

length-many : (n : ℕ) → length (many n) ≡ n
length-many zero = refl
length-many (suc n) = ap suc (length-many n)

-- Two lines too many.
shorten-enough_example :
    shorten 2 (append_event ∷ many 81) ≡ take stream_window (append_event ∷ many 81)
shorten-enough_example = shorten-enough 2 (append_event ∷ many 81) (omega (arith, length-many 81))

abbrev groups : List (List String)
groups = ("node3" ∷ []) ∷ ("node1" ∷ "node2" ∷ []) ∷ []

-- A heartbeat, with and without the number of its entries.
abbrev heartbeat : Event
heartbeat = record append_event { entries = none }

abbrev empty_append : Event
empty_append = record append_event { entries = some 0 }

-- A node without entries leaves three numbers out.
state_line :
    format_state (record (bare "state") { node = some "node1"; role = some "follower" })
    ≡ "node1 state role=follower term=undefined commit=undefined last_log=undefined"
unfolding format_state concat
state_line = refl

sent_line : format_rpc_send append_event ≡ "node1 → node2 AppendEntries term=3 entries=2"
unfolding format_rpc_send entries_text concat decimal
sent_line = refl

banner_text : (banner_of groups).text ≡ "Partição declarada: (node3) | (node1, node2)"
unfolding banner_of format_group concat join bracketed
banner_text = refl

label_text :
    map apply_text (1 ∷ 2 ∷ [])
    ≡ "Aplicar partição (1 marcado)" ∷ "Aplicar partição (2 marcados)" ∷ []
unfolding apply_text concat decimal
label_text = refl

configured_names : node_names (some " raft-a,raft-b ,, ") ≡ "raft-a" ∷ "raft-b" ∷ []
unfolding node_names split trim
configured_names = refl

default_names : node_names none ≡ "node1" ∷ "node2" ∷ "node3" ∷ []
unfolding node_names split trim
default_names = refl

match_line :
    match_text (record (initial_node "node1") {
      role = some "leader";
      match_index = ("node2", 12) ∷ ("node3", 7) ∷ [];
    })
    ≡ "<div class=\"match\">match: node2: 12 · node3: 7</div>"
unfolding match_text concat join initial_node decimal
match_line = refl
