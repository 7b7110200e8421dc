-- ===== src/Views/Topology/Scene/Silence.antt =====
-- The lines of the page after a time without answers.
use atividade_consenso_raft.Base.{
  ◌+◌, ◌*◌, String, string_eq, Bool, Option, none, some, List, Map, get?, ltb, All,
}
use atividade_consenso_raft.Geometry.{Point}
use atividade_consenso_raft.Store.State.{Link, link_key}
use atividade_consenso_raft.Store.Links.Silence.{link_of}
use atividade_consenso_raft.World.{World}
use atividade_consenso_raft.Page.{Task}
use atividade_consenso_raft.Page.Silence.{IsQuiet}
use atividade_consenso_raft.Views.Topology.Scene.Lines.{LineParts}

-- Has a link been silent for more than two heartbeats, by the clock and the heartbeat of a page?
abbrev pub is_silent : World → Option Link → Option Bool
is_silent w none = none
is_silent w (some l) = some (ltb (l.last_resp + 2 * w.state.heartbeat_ms) w.date_now)

-- No AppendEntriesResp comes over the link of two nodes.
abbrev pub IsUnheard : List Task → String × String → Type 0
IsUnheard ts p = All (IsQuiet (link_key p.0 p.1)) ts

-- The places of two nodes, and whether their link, last heard by the page `w`, is silent by `w'`.
abbrev pub silent_parts :
    {A : Type 0} → World → World → Map String (Point A) → String × String → LineParts A
silent_parts w w' positions p =
    (get? p.0 positions, get? p.1 positions, is_silent w' (link_of p.0 p.1 w.state))
