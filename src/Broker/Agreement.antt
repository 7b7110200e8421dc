-- ===== src/Broker/Agreement.antt =====
-- infra/broker/broker.py, find_leader and /kill-leader: whom the broker takes for the leader.
use atividade_consenso_raft.Base.{
  string_eq, option_eq, ◌==◌, ◌||◌, String, Bool, true, false, some, List, [], ◌∷◌, ◌≡◌, refl, ap,
  arith, Bool-cases, beq_sound, inl, inr, trim_end, ◌∙◌,
}
use atividade_consenso_raft.Event.{is_text}
use atividade_consenso_raft.Broker.Docker.{Environment, Setup, Status}
use atividade_consenso_raft.Broker.Leader.{http_get, find_leader, url}
use atividade_consenso_raft.Broker.Network.{Network, IsDocker, stopped}
use atividade_consenso_raft.Broker.{Body, do_post, kill_leader, stop}

module _ {M : Type 0} (env : Environment M) where
  abbrev pub info : String → M → Status
  info node m = (http_get env (url node "/status") m).0

  -- The machine after the node has been asked for its state.
  abbrev pub asked : String → M → M
  asked node m = (http_get env (url node "/status") m).1

  -- The node does not say that another one leads.
  pub record AgreesOn (leader : String) (node : String) (m : M) : Type 0 where
    pub leads : (info node m).role ≡ some "leader" → node ≡ leader
    pub names : is_text (info node m).leader_id ≡ true → (info node m).leader_id ≡ some leader

  -- The node says that it leads, or who does.
  abbrev pub speaks : String → M → Bool
  speaks node m = (info node m).role == some "leader" || is_text (info node m).leader_id

  -- The same of nodes that are asked one after the other.
  abbrev pub AllAgree : String → List String → M → Type 0
  AllAgree leader [] m = Unit {0}
  AllAgree leader (n ∷ nodes) m = AgreesOn leader n m × AllAgree leader nodes (asked n m)

  abbrev pub any_speaks : List String → M → Bool
  any_speaks [] m = false
  any_speaks (n ∷ nodes) m = speaks n m || any_speaks nodes (asked n m)

  find_leader_agreed :
      (leader : String) (nodes : List String) (m : M)
      → AllAgree leader nodes m
      → any_speaks nodes m ≡ true
      → (find_leader env nodes m).0 ≡ some leader
  unfolding find_leader
  find_leader_agreed leader [] m agree spoken = cc
  find_leader_agreed leader (n ∷ nodes) m agree spoken =
      elim (Bool-cases ((info n m).role == some "leader")) [
        | inl own ↦ rw (own, find_leader) (ap some (agree.0.leads (beq_sound own)))
        | inr other ↦ elim (Bool-cases (is_text (info n m).leader_id)) [
          | inl told ↦ rw (other, told, find_leader) (agree.0.names told)
          | inr silent ↦
              rw (other, silent, find_leader)
                (find_leader_agreed leader nodes (asked n m) agree.1
                  (ground (arith, spoken, other, silent)))
        ]
      ]

  view-find_leader :
      (view : M → Network) (ip : String → String)
      → IsDocker env view ip
      → (nodes : List String) (m : M) → view (find_leader env nodes m).1 ≡ view m
  unfolding find_leader http_get
  view-find_leader view ip d [] m = refl
  view-find_leader view ip d (n ∷ nodes) m =
      ground (arith, d.asks (url n "/status") m, view-find_leader view ip d nodes (asked n m))

-- `/kill-leader` stops the leader and no other container, if it has a name, at least one node says who
-- leads when it is asked, and none says that another does.
pub kill_leader-stops :
    {M : Type 0} (env : Environment M) (view : M → Network) (ip : String → String)
    (d : IsDocker env view ip) (setup : Setup) (leader : String) (body : Body) (m : M)
    → is_text (some leader) ≡ true
    → AllAgree env leader setup.nodes m
    → any_speaks env setup.nodes m ≡ true
    → view (do_post env setup "/kill-leader" (some body) m).1 ≡ stopped leader (view m)
unfolding do_post trim_end kill_leader
kill_leader-stops env view ip d setup leader body m named agree spoken =
    rw (find_leader_agreed env leader setup.nodes m agree spoken, kill_leader, named)
      (unfold stop in
        d.stops leader (find_leader env setup.nodes m).1
        ∙ ap (stopped leader) (view-find_leader env view ip d setup.nodes m))
