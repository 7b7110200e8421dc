-- ===== src/Views/Topology/Scene/Dots.antt =====
-- The dots of the packets: which there are, the ways that they take, and how far they are.
use atividade_consenso_raft.Base.{
  ℕ, suc, ◌++◌, ◌+◌, String, string_eq, nat_eq, ◌==◌, Bool, true, false, not, ◌&&◌, ◌||◌, Option,
  some, none, is_some, List, [], ◌∷◌, Map, get?, has, select, every, leb, ◌≡◌, refl, ap, ap₂, ◌∙◌,
  arith, if◌then◌else◌,
}
use atividade_consenso_raft.Geometry.Arithmetic.{Numbers}
use atividade_consenso_raft.Geometry.{Point, line, quad, is_placed, is_hit, control_point, layout}
use atividade_consenso_raft.Geometry.Ways.{route_packet_lem}
use atividade_consenso_raft.Geometry.Places.{is_placed-layout}
use atividade_consenso_raft.Store.State.{State, Packet}
use atividade_consenso_raft.Event.{Event}
use atividade_consenso_raft.World.{World, Timer}
use atividade_consenso_raft.Handlers.Rpc.{packet_of, launch}
use atividade_consenso_raft.Page.{is_due}
use atividade_consenso_raft.Views.Topology.{dot_of, dot_ids, render_packets}
use atividade_consenso_raft.Views.Topology.Drawn.{has_way, render_packets-drawn}
use atividade_consenso_raft.Views.Topology.Scene.{
  points_of, others_of, packet_route, way_of, hidden, progress,
}

module _ ⦃m : Numbers⦄ where
  -- Does a third node stand in the way of a packet?
  abbrev pub is_in_way :
      Map String (Point m.Number) → Packet → Point m.Number → Point m.Number → String → Bool
  is_in_way positions p a b id = elim (get? id positions) [
    | none ↦ false
    | some q ↦ not (id == p.from) && not (id == p.to) && is_hit a b q
  ]

  every-points_of :
      (positions : Map String (Point m.Number)) (p : Packet) (a b : Point m.Number)
      (ids : List String)
      → every
          (λ q. not (is_hit a b q))
          (points_of positions (select (λ n. not (n == p.from) && not (n == p.to)) ids))
        ≡ every (λ id. not (is_in_way positions p a b id)) ids
  every-points_of positions p a b [] = refl
  every-points_of positions p a b (id ∷ ids) = ground (arith, every-points_of positions p a b ids)

  -- The way of a packet between two nodes that have a place joins these places. It is straight
  -- exactly if no third node of the page stands in it, and else bends.
  pub packet_route-straight :
      (s : State) (positions : Map String (Point m.Number)) (center : Point m.Number) (p : Packet)
      (a b : Point m.Number)
      → get? p.from positions ≡ some a
      → get? p.to positions ≡ some b
      → packet_route s positions center p
        ≡ some (
            if every (λ id. not (is_in_way positions p a b id)) s.node_ids
            then line a b
            else quad a (control_point a b center) b)
  unfolding packet_route
  packet_route-straight s positions center p a b from to =
      rw (from, to, packet_route)
        (ap some (
          route_packet_lem a b (points_of positions (others_of s p)) center
          ∙ ap (λ c. if c then line a b else quad a (control_point a b center) b)
              (every-points_of positions p a b s.node_ids)))

  -- Is there a packet with this id between two nodes of the list?
  abbrev pub has_between : List String → ℕ → List Packet → Bool
  has_between ids i [] = false
  has_between ids i (p ∷ ps) =
      (p.id == i && (has p.from ids && has p.to ids)) || has_between ids i ps

  is_some-way_of :
      (s : State) (positions : Map String (Point m.Number)) (center : Point m.Number) (p : Packet)
      → is_some (way_of s positions center p)
        ≡ (is_placed positions p.from && is_placed positions p.to)
  unfolding way_of packet_route
  is_some-way_of s positions center p = ground arith

  has_way-layout :
      (s : State) (ids : List String) (width height : m.Number) (center : Point m.Number) (i : ℕ)
      (ps : List Packet)
      → has_way (way_of s (layout ids width height).positions center) i ps ≡ has_between ids i ps
  has_way-layout s ids width height center i [] = refl
  has_way-layout s ids width height center i (p ∷ ps) =
      ap₂ (λ x y. (p.id == i && x) || y)
        (is_some-way_of s (layout ids width height).positions center p
          ∙ ap₂ (λ x y. x && y) (is_placed-layout ids width height p.from)
              (is_placed-layout ids width height p.to))
        (has_way-layout s ids width height center i ps)

  -- On a page that has just been laid out a packet has a dot exactly if it goes between two nodes of the page.
  pub render_packets-laid_out :
      (s : State) (width height : m.Number) (i : ℕ)
      → has i (
          dot_ids (
            render_packets
              (way_of s
                (layout s.node_ids width height).positions
                (layout s.node_ids width height).center)
              s
              []))
        ≡ has_between s.node_ids i s.packets
  unfolding has
  render_packets-laid_out s width height i =
      render_packets-drawn (way_of s (layout s.node_ids width height).positions _) s [] i
      ∙ ground (
        arith,
        has_way-layout s s.node_ids width height (layout s.node_ids width height).center i
            s.packets,
      )

is_due-snoc :
    (id now : ℕ) (t : Timer) (ts : List Timer)
    → is_due id now (ts ++ t ∷ []) ≡ (is_due id now ts || (t.packet == id && leb t.due now))
unfolding is_due
is_due-snoc id now t [] = ground arith
is_due-snoc id now t (x ∷ ts) = ground (arith, is_due-snoc id now t ts)

-- The timer that takes a packet away does not run out while its dot is still on its way.
pub launch-hidden :
    (e : Event) (success granted : Option Bool) (w : World) (now : ℕ) (path : String)
    → is_due (suc w.packet_counter) now w.timers ≡ false
    → is_due (suc w.packet_counter) now (launch (packet_of e success granted w) w).timers ≡ true
    → progress now (dot_of path (packet_of e success granted w)) ≡ hidden
unfolding launch packet_of progress
launch-hidden e success granted w now path fresh due =
    let p = packet_of e success granted w in
    let split =
      is_due-snoc p.id now (record { packet = p.id; due = w.perf_now + (p.duration + 5000) })
        w.timers in
    ground (arith, split, fresh, due)
