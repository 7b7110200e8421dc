-- ===== src/Broker/Refines.antt =====
-- infra/broker/broker.py: the handlers of /partition, /heal and /heal-node on the containers, as
-- operations on the network that docker shows.
use atividade_consenso_raft.Base.{
  nat_eq, string_eq, list_eq, String, Bool, true, List, [], ◌∷◌, Map, ◌≡◌, refl, ap, ◌∙◌, sym,
  subst, All,
}
use atividade_consenso_raft.Broker.Docker.{
  Environment, Setup, output_rule, input_rule, node_ip, partition_drop,
}
use atividade_consenso_raft.Broker.Network.{Network, IsDocker, IsAddress, inserted}
use atividade_consenso_raft.Broker.Cuts.{cut, cut_pair, cut_from, cut_all, Up, up-cut_from}
use atividade_consenso_raft.Broker.{separate, separate_from, separate_all}

module _ {M : Type 0} (env : Environment M) (view : M → Network) (ip : String → String)
    (d : IsDocker env view ip) where
  view-partition_drop :
      (port node peer_ip : String) (m : M)
      → view (partition_drop env port node peer_ip m) ≡ cut port node peer_ip (view m)
  unfolding partition_drop
  view-partition_drop port node peer_ip m =
      d.inserts node (input_rule port peer_ip) _
      ∙ ap (inserted node (input_rule port peer_ip)) (d.inserts node (output_rule port peer_ip) m)

  pub node_ip_up :
      (n : String) (m : M) → (view m).up n ≡ true → IsAddress (ip n) → (node_ip env n m).0 ≡ ip n
  unfolding node_ip
  node_ip_up n m up (plain, full) = rw (d.finds n m up) (rw (plain, plain) refl)

  pub view-node_ip : (n : String) (m : M) → view (node_ip env n m).1 ≡ view m
  unfolding node_ip
  view-node_ip n m = d.inspects n m

  module _ (setup : Setup) where
    view-separate :
        (iso maj : String) (r : Map String String × M)
        → (view r.1).up iso ≡ true
        → (view r.1).up maj ≡ true
        → IsAddress (ip iso)
        → IsAddress (ip maj)
        → view (separate env setup iso maj r).1 ≡ cut_pair setup.raft_port ip iso maj (view r.1)
    unfolding separate
    view-separate iso maj (done, m) up_iso up_maj at_iso at_maj =
        rw
          (
            node_ip_up iso m up_iso at_iso,
            node_ip_up maj (node_ip env iso m).1
                (subst (λ v. v.up maj ≡ true) (sym (view-node_ip iso m)) up_maj) at_maj,
            at_iso.1,
            at_maj.1,
          )
          (view-partition_drop setup.raft_port maj (ip iso) _
            ∙ ap (cut setup.raft_port maj (ip iso)) (
                view-partition_drop setup.raft_port iso (ip maj) _
                ∙ ap (cut setup.raft_port iso (ip maj))
                    (view-node_ip maj (node_ip env iso m).1 ∙ view-node_ip iso m)))

    view-separate_from :
        (iso : String) (majority : List String) (r : Map String String × M)
        → (view r.1).up iso ≡ true
        → Up (view r.1) majority
        → IsAddress (ip iso)
        → All (λ n. IsAddress (ip n)) majority
        → view (separate_from env setup iso majority r).1
          ≡ cut_from setup.raft_port ip iso majority (view r.1)
    unfolding separate_from
    view-separate_from iso [] r up_iso up_maj at_iso at_maj = refl
    view-separate_from iso (maj ∷ majority) r up_iso up_maj at_iso at_maj =
        let step = view-separate iso maj r up_iso up_maj.0 at_iso at_maj.0 in
        view-separate_from iso majority (separate env setup iso maj r)
          (subst (λ v. v.up iso ≡ true) (sym step) up_iso)
          (subst (λ v. Up v majority) (sym step) up_maj.1) at_iso at_maj.1
        ∙ ap (cut_from setup.raft_port ip iso majority) step

    -- A partition installs the rules of each pair, if the nodes of both sides are up.
    pub view-separate_all :
        (isolate majority : List String) (r : Map String String × M)
        → Up (view r.1) isolate
        → Up (view r.1) majority
        → All (λ n. IsAddress (ip n)) isolate
        → All (λ n. IsAddress (ip n)) majority
        → view (separate_all env setup isolate majority r).1
          ≡ cut_all setup.raft_port ip isolate majority (view r.1)
    unfolding separate_all
    view-separate_all [] majority r up_iso up_maj at_iso at_maj = refl
    view-separate_all (iso ∷ isolate) majority r up_iso up_maj at_iso at_maj =
        let step = view-separate_from iso majority r up_iso.0 up_maj at_iso.0 at_maj in
        let kept = ap (λ v. v.up) step ∙ up-cut_from setup.raft_port ip iso majority (view r.1) in
        view-separate_all isolate majority (separate_from env setup iso majority r)
          (subst (λ (u : String → Bool). All (λ n. u n ≡ true) isolate) (sym kept) up_iso.1)
          (subst (λ (u : String → Bool). All (λ n. u n ≡ true) majority) (sym kept) up_maj) at_iso.1
          at_maj
        ∙ ap (cut_all setup.raft_port ip isolate majority) step
