-- ===== src/Views/Elements.antt =====
-- The elements that the views of infra/dashboard/js/views make: `el`, appendChild, and what each view
-- mounts before it draws a state.
pub mod Table
use atividade_consenso_raft.Base.{String, List, [], ◌∷◌, map, concat}

-- An element with its tag, class, title, text and children; a text without a tag stands between others.
mutual
  pub data Element : Type 0 where
    element : (tag cls title text : String) → Elements → Element

  pub data Elements : Type 0 where
    no_more : Elements
    child : Element → Elements → Elements

-- `el(tag, cls, txt)`; a class or text that is null leaves the empty one.
abbrev pub el : String → String → String → Element
el tag cls txt = element tag cls "" txt no_more

abbrev pub children : List Element → Elements
children [] = no_more
children (e ∷ es) = child e (children es)

-- An element with these children appended to it, one after another.
abbrev pub parent : String → String → List Element → Element
parent tag cls es = element tag cls "" "" (children es)

-- nodeCardView.js
unfoldable pub card_element : String → Element
card_element id = parent "div" "card-nodo" (
    el "div" "card-nome" id
    ∷ el "div" "card-papel" "—"
    ∷ el "div" "card-stats" ""
    ∷ parent "div" "node-actions" (
        el "button" "" "Matar"
        ∷ el "button" "isolar" "Isolar"
        ∷ el "button" "" "Curar este nó"
        ∷ [])
    ∷ [])

unfoldable pub mount_cards : List String → List Element
unfolding card_element
mount_cards ids =
    el "h2" "" "Estado dos nós" ∷ parent "div" "cards-grid" (map card_element ids) ∷ []

-- eventStreamView.js
unfoldable pub toggle_element : String → Element
unfolding concat
toggle_element label =
    parent "label" "toggle" (el "input" "" "" ∷ el "" "" (concat (" " ∷ label ∷ [])) ∷ [])

unfoldable pub mount_stream_elements : List Element
unfolding toggle_element
mount_stream_elements =
    parent "div" "stream-header" (
      el "h2" "" "Eventos ao vivo"
      ∷ toggle_element "Esconder heartbeats"
      ∷ toggle_element "Esconder snapshots de estado"
      ∷ toggle_element "Esconder replicação"
      ∷ [])
    ∷ el "div" "stream-list" ""
    ∷ []

-- controlsView.js, partitionsView.js and topologyView.js
unfoldable pub mount_controls : List Element
mount_controls =
    el "button" "" "Matar líder"
    ∷ el "button" "" "Curar tudo"
    ∷ el "button" "" "Put aleatório"
    ∷ el "button" "aplicar" "Aplicar partição"
    ∷ []

unfoldable pub mount_banner : List Element
mount_banner = el "div" "banner" "" ∷ []

unfoldable pub mount_topology : List Element
mount_topology = el "svg" "links" "" ∷ el "svg" "arrows" "" ∷ []
