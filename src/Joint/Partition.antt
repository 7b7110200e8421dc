-- ===== src/Joint/Partition.antt =====
-- "Aplicar partição" and "Liberar" on the page, with what the broker makes of them.
use atividade_consenso_raft.Base.{
  nat_eq, string_eq, ◌&&◌, ◌||◌, not, String, Bool, true, some, List, [], ◌∷◌, map, has, has-select,
  ltb, ◌≡◌, refl, ◌∙◌, All, arith, trim_end,
}
use atividade_consenso_raft.Store.Isolation.Spec.{Shows}
use atividade_consenso_raft.World.{Request, partition}
use atividade_consenso_raft.Controls.{majority_of, click_apply, answer, ask}
use atividade_consenso_raft.Page.{press_apply, answers, act, run}
use atividade_consenso_raft.Page.Partition.{click_apply-ask, apply-Shows}
use atividade_consenso_raft.Broker.Docker.{Environment, Setup}
use atividade_consenso_raft.Broker.Network.{Network, IsDocker, IsAddress}
use atividade_consenso_raft.Broker.Cuts.{Side, drops, Up}
use atividade_consenso_raft.Broker.Contract.{partition_body, partition-cuts}
use atividade_consenso_raft.Broker.{do_post}
use atividade_consenso_raft.Joint.{System, serve, exchange, is_ok}

-- Different containers have different addresses.
abbrev pub AreDistinct : (String → String) → Type 0
AreDistinct ip = (a b : String) → ip a ≡ ip b → a ≡ b

has-map :
    (ip : String → String) (b : String) (xs : List String)
    → AreDistinct ip
    → has (ip b) (map ip xs) ≡ has b xs
unfolding has
has-map ip b [] once = refl
has-map ip b (x ∷ xs) once = ground (
  arith,
  has-map ip b xs once,
  once x b,
  string_eq.test_iff x b,
  string_eq.test_iff (ip x) (ip b),
)

module _ {M : Type 0} (env : Environment M) (view : M → Network) (ip : String → String)
    (d : IsDocker env view ip) (setup : Setup) where
  pub exchange-ask :
      (r : Request) (s : System M)
      → s.page.requests ≡ []
      → let (rep, m') = serve env setup r s.machine in
        exchange env setup 0 (record s { page = ask r s.page })
        ≡ record { page = answer 0 (is_ok rep) (ask r s.page); machine = m' }
  unfolding exchange
  exchange-ask r s none_asked = rw none_asked refl

  apply-exchange :
      (s : System M) {x y : String} {isolate majority : List String}
      → s.page.requests ≡ []
      → s.page.state.pending_isolations ≡ x ∷ isolate
      → majority_of s.page.state ≡ y ∷ majority
      → exchange env setup 0 (record s { page = click_apply s.page }) ≡ record {
        page = run s.page (press_apply ∷ answers 0 true ∷ []);
        machine =
            (do_post env setup "/partition"
              (some (partition_body (x ∷ isolate) (y ∷ majority)))
              s.machine).1;
      }
  unfolding act run serve do_post trim_end
  apply-exchange s {x} {y} {isolate} {majority} none_asked marked others =
      rw (click_apply-ask s.page marked others)
        (exchange-ask (partition (x ∷ isolate) (y ∷ majority)) s none_asked)

  -- "Aplicar partição", when no request is under way, no node was isolated before, both sides have
  -- nodes, no container has a rule for the raft port, and all that are named are up, with addresses of
  -- their own: once the broker has answered, the banner shows the isolated nodes, and two nodes of the
  -- page drop each other's raft traffic, in both directions, exactly if one of them is isolated and the
  -- other is not.
  pub apply-cuts :
      (s : System M) (x y : String) (isolate majority : List String) (side : Side) (a b : String)
      → s.page.requests ≡ []
      → s.page.state.applied_isolations ≡ []
      → s.page.state.pending_isolations ≡ x ∷ isolate
      → majority_of s.page.state ≡ y ∷ majority
      → ((k p : String) → drops side setup.raft_port (view s.machine) k p ≡ 0)
      → Up (view s.machine) (x ∷ isolate)
      → Up (view s.machine) (y ∷ majority)
      → All (λ n. IsAddress (ip n)) (x ∷ isolate)
      → All (λ n. IsAddress (ip n)) (y ∷ majority)
      → AreDistinct ip
      → has a s.page.state.node_ids ≡ true
      → has b s.page.state.node_ids ≡ true
      → let s' = exchange env setup 0 (record s { page = click_apply s.page }) in
        let isolated = λ (n : String). has n s'.page.state.applied_isolations in
        Shows s'.page.state.node_ids s'.page.state.applied_isolations
          s'.page.state.declared_partitions
        × (ltb 0 (drops side setup.raft_port (view s'.machine) a (ip b))
            ≡ ((isolated a && not (isolated b)) || (isolated b && not (isolated a))))
  apply-cuts s x y isolate majority side a b none_asked none_applied marked others free up_x up_y
        at_x at_y once known_a known_b =
      rw (apply-exchange s none_asked marked others) (
        let (shows, emptied, held) =
          apply-Shows s.page x y isolate majority none_asked none_applied marked others in
        let (fine, cuts) =
          partition-cuts env view ip d setup (x ∷ isolate) (y ∷ majority) s.machine side a (ip b)
            up_x up_y at_x at_y in
        (shows, cuts ∙ meaning (held a) (held b)))
    where
      is_marked : String → Bool
      is_marked n = has n s.page.state.pending_isolations

      other :
          (n : String)
          → has n s.page.state.node_ids ≡ true
          → has n (y ∷ majority) ≡ not (is_marked n)
      other n known =
          rw
            (
              ← others,
              has-select (λ m. not (has m s.page.state.pending_isolations)) n s.page.state.node_ids,
              known,
            )
            (ground arith)

      meaning :
          {p q : Bool}
          → p ≡ is_marked a
          → q ≡ is_marked b
          → (ltb 0 (drops side setup.raft_port (view s.machine) a (ip b))
              || (has a (x ∷ isolate) && has (ip b) (map ip (y ∷ majority)))
              || (has a (y ∷ majority) && has (ip b) (map ip (x ∷ isolate))))
            ≡ ((p && not q) || (q && not p))
      meaning {p} {q} e f =
          rw
            (
              free a (ip b),
              has-map ip b (y ∷ majority) once,
              has-map ip b (x ∷ isolate) once,
              other a known_a,
              other b known_b,
              ← marked,
              e,
              f,
            )
            (ground arith)
