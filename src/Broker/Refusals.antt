-- ===== src/Broker/Refusals.antt =====
-- infra/broker/broker.py, do_POST: the answers that refuse a request.
use atividade_consenso_raft.Base.{
  ℕ, nat_eq, string_eq, option_eq, ◌==◌, ◌||◌, ◌&&◌, not, List, [], ◌∷◌, All, Bool-cases, inl, inr,
  false, if◌then◌else◌, String, Bool, true, none, some, Option, trim_end, same_char, ◌≡◌, refl, ap,
  ◌∙◌, arith, or_default, if_case,
}
use atividade_consenso_raft.Event.{is_text}
use atividade_consenso_raft.Broker.Docker.{Environment, Setup}
use atividade_consenso_raft.Broker.Agreement.{info, asked, any_speaks}
use atividade_consenso_raft.Broker.Leader.{find_leader, http_get, http_post, url}
use atividade_consenso_raft.Broker.Network.{Network, IsDocker}
use atividade_consenso_raft.Broker.{
  Body, Reply, Content, do_post, route, kill_leader, stop, heal, heal_node, partition, put,
  with_named, leader_stopped, node_stopped, reply, healed, forward, forwarded,
}

-- A bad request, an unknown path, or no leader.
abbrev pub is_refusal : ℕ → Bool
is_refusal status = status == 400 || status == 404 || status == 503

-- The machine after the nodes have been asked for their state, one after the other.
abbrev pub ask_all : {M : Type 0} → Environment M → List String → M → M
ask_all env [] m = m
ask_all env (n ∷ nodes) m = ask_all env nodes (asked env n m)

view-ask_all :
    {M : Type 0} (env : Environment M) (view : M → Network) (ip : String → String)
    → IsDocker env view ip
    → (nodes : List String) (m : M) → view (ask_all env nodes m) ≡ view m
unfolding http_get
view-ask_all env view ip d [] m = refl
view-ask_all env view ip d (n ∷ nodes) m =
    view-ask_all env view ip d nodes (asked env n m) ∙ d.asks (url n "/status") m

-- A search that brings no name has asked all nodes, and none said that it leads or who does.
find_leader_silent :
    {M : Type 0} (env : Environment M) (nodes : List String) (m : M)
    → All (λ n. is_text (some n) ≡ true) nodes
    → is_text (find_leader env nodes m).0 ≡ false
    → ((find_leader env nodes m).1 ≡ ask_all env nodes m) × (any_speaks env nodes m ≡ false)
unfolding find_leader
find_leader_silent env [] m named h = (refl, refl)
find_leader_silent env (n ∷ nodes) m named h =
    elim (Bool-cases ((info env n m).role == some "leader")) [
      | inl own ↦ absurd (ground (arith, own, h, named.0))
      | inr other ↦ elim (Bool-cases (is_text (info env n m).leader_id)) [
        | inl told ↦ absurd (ground (arith, other, told, h))
        | inr silent ↦
            rw (other, silent, find_leader)
              (find_leader_silent env nodes (asked env n m) named.1
                (ground (arith, other, silent, h)))
      ]
    ]

module _ {M : Type 0} (env : Environment M) (setup : Setup)
    (named : All (λ n. is_text (some n) ≡ true) setup.nodes) where
  abbrev Keeps : M → Reply × M → Type 0
  Keeps m r =
      is_refusal r.0.status ≡ true
      → (r.1 ≡ (if r.0.status == 503 then ask_all env setup.nodes m else m))
        × ((r.0.status == 503 && any_speaks env setup.nodes m) ≡ false)

  stop-Keeps :
      (content : String → String → String → Content) (node : String) (m : M)
      → Keeps m (stop env setup content node m)
  unfolding stop
  stop-Keeps content node m h = ground arith

  -- A step that asks for the leader, refuses without one, and else goes on without a refusal.
  leader-Keeps :
      (m : M) (c : Content) (next : String → M → Reply × M)
      → ((leader : String) (m' : M) → is_refusal (next leader m').0.status ≡ false)
      → let (leader, m') = find_leader env setup.nodes m in
        Keeps m (if not (is_text leader) then (reply 503 c, m') else next (or_default leader "") m')
  leader-Keeps m c next goes_on = elim (Bool-cases (is_text (find_leader env setup.nodes m).0)) [
    | inl found ↦
        let (_, m') = find_leader env setup.nodes m in
        let more = goes_on (or_default (find_leader env setup.nodes m).0 "") m' in
        rw found (λ h. absurd (ground (arith, more, h)))
    | inr silent ↦ rw silent (λ h. find_leader_silent env setup.nodes m named silent)
  ]

  kill_leader-Keeps : (m : M) → Keeps m (kill_leader env setup m)
  unfolding kill_leader stop
  kill_leader-Keeps m = leader-Keeps m _ (stop env setup leader_stopped) (λ leader m'. ground arith)

  put-Keeps : (body : Body) (m : M) → Keeps m (put env setup body m)
  unfolding put forward
  put-Keeps body m =
      if_case (Keeps m) (not (is_text body.key)) (λ h. (refl, refl))
        (leader-Keeps m _
          (λ leader m'.
            let ((code, text), m'') =
              http_post env (url leader "/put") (or_default body.key "") (or_default body.value "")
                m' in
            (reply 200 (forwarded leader code text), m''))
          (λ leader m'. refl))

  heal-Keeps : (m : M) → Keeps m (heal env setup m)
  unfolding heal
  heal-Keeps m h = ground arith

  partition-Keeps : (body : Body) (m : M) → Keeps m (partition env setup body m)
  unfolding partition
  partition-Keeps body m h = ground arith

  with_named-Keeps :
      (body : Body) (f : String → M → Reply × M) (m : M)
      → ((node : String) → Keeps m (f node m))
      → Keeps m (with_named env setup body f m)
  unfolding with_named
  with_named-Keeps body f m keeps =
      if_case (Keeps m) (not (is_text body.node)) (λ h. (refl, refl))
        (keeps (or_default body.node ""))

  route-Keeps : (path : String) (body : Body) (m : M) → Keeps m (route env setup path body m)
  unfolding route
  route-Keeps path body m = if_case (Keeps m) (path == "/kill-leader") (kill_leader-Keeps m) (
      if_case (Keeps m) (path == "/kill-node")
        (with_named-Keeps body (stop env setup node_stopped) m
          (λ node. stop-Keeps node_stopped node m))
        (if_case (Keeps m) (path == "/heal") (heal-Keeps m) (
          if_case (Keeps m) (path == "/heal-node")
            (with_named-Keeps body (λ node m. (reply 200 (healed node), heal_node env setup node m))
              m (λ node h. ground arith))
            (if_case (Keeps m) (path == "/partition") (partition-Keeps body m)
              (if_case (Keeps m) (path == "/put") (put-Keeps body m) (λ h. (refl, refl)))))))

  do_post-Keeps :
      (path : String) (parsed : Option Body) (m : M) → Keeps m (do_post env setup path parsed m)
  unfolding do_post
  do_post-Keeps path none m h = (refl, refl)
  do_post-Keeps path (some body) m h = route-Keeps (trim_end (λ c. same_char c "/") path) body m h

  -- Whatever is asked of the broker, with any path and body, where the configured nodes have names and
  -- docker does what it documents: if it answers 400 or 404, the machine is as it was, and if it
  -- answers 503, it has only asked each node for its state, in order, and none said that it leads or
  -- who does. In all three cases no container has been started or stopped, and no rule has changed.
  pub do_post-refuses :
      (view : M → Network) (ip : String → String) (d : IsDocker env view ip) (path : String)
      (parsed : Option Body) (m : M)
      → is_refusal (do_post env setup path parsed m).0.status ≡ true
      → let (r, m') = do_post env setup path parsed m in
        (m' ≡ (if r.status == 503 then ask_all env setup.nodes m else m))
        × ((r.status == 503 && any_speaks env setup.nodes m) ≡ false)
        × (view m' ≡ view m)
  do_post-refuses view ip d path parsed m h =
      let (kept, silent) = do_post-Keeps path parsed m h in
      (
        kept,
        silent,
        ap view kept ∙ elim (Bool-cases ((do_post env setup path parsed m).0.status == 503)) [
          | inl asked ↦ rw asked (view-ask_all env view ip d setup.nodes m)
          | inr unasked ↦ rw unasked refl
        ],
      )
