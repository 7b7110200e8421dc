-- ===== src/Broker/Cuts.antt =====
-- infra/broker/broker.py, /partition: the rules that it leaves in the containers.
use atividade_consenso_raft.Base.{
  ℕ, ◌+◌, nat_eq, string_eq, list_eq, ◌==◌, ◌&&◌, String, true, List, [], ◌∷◌, ◌≡◌, refl, ◌∙◌, sym,
  subst, All, arith, if◌then◌else◌,
}
use atividade_consenso_raft.Broker.Docker.{output_rule, input_rule}
use atividade_consenso_raft.Broker.Network.{Network, inserted}

pub data Side : Type 0 where
  outgoing incoming : Side

abbrev pub rule : Side → String → String → List String
rule outgoing port peer_ip = output_rule port peer_ip
rule incoming port peer_ip = input_rule port peer_ip

-- How many rules in the tables of a node drop what goes to, or what comes from, the raft port of an
-- address.
abbrev pub drops : Side → String → Network → String → String → ℕ
drops side port net k peer_ip = net.installed k (rule side port peer_ip)

abbrev pub cut : String → String → String → Network → Network
cut port node peer_ip net =
    inserted node (input_rule port peer_ip) (inserted node (output_rule port peer_ip) net)

pub drops-cut :
    (side : Side) (port node peer_ip : String) (net : Network) (k p : String)
    → net.up node ≡ true
    → drops side port (cut port node peer_ip net) k p
      ≡ (if node == k && peer_ip == p then 1 else 0) + drops side port net k p
drops-cut outgoing port node peer_ip net k p up = ground (arith, up, string_eq.test_iff port port)
drops-cut incoming port node peer_ip net k p up = ground (arith, up, string_eq.test_iff port port)

-- How often a pair of nodes has the broker install the rules of a node against an address.
abbrev pub hits : (String → String) → String → String → String → String → ℕ
hits ip iso maj k p =
    (if maj == k && ip iso == p then 1 else 0) + (if iso == k && ip maj == p then 1 else 0)

abbrev pub hits_from : (String → String) → String → List String → String → String → ℕ
hits_from ip iso [] k p = 0
hits_from ip iso (maj ∷ majority) k p = hits_from ip iso majority k p + hits ip iso maj k p

abbrev pub hits_all : (String → String) → List String → List String → String → String → ℕ
hits_all ip [] majority k p = 0
hits_all ip (iso ∷ isolate) majority k p =
    hits_all ip isolate majority k p + hits_from ip iso majority k p

-- The rules between each two of the two sides.
abbrev pub cut_pair : String → (String → String) → String → String → Network → Network
cut_pair port ip iso maj net = cut port maj (ip iso) (cut port iso (ip maj) net)

abbrev pub cut_from : String → (String → String) → String → List String → Network → Network
cut_from port ip iso [] net = net
cut_from port ip iso (maj ∷ majority) net =
    cut_from port ip iso majority (cut_pair port ip iso maj net)

abbrev pub cut_all : String → (String → String) → List String → List String → Network → Network
cut_all port ip [] majority net = net
cut_all port ip (iso ∷ isolate) majority net =
    cut_all port ip isolate majority (cut_from port ip iso majority net)

abbrev pub Up : Network → List String → Type 0
Up net nodes = All (λ n. net.up n ≡ true) nodes

pub up-cut_from :
    (port : String) (ip : String → String) (iso : String) (majority : List String) (net : Network)
    → (cut_from port ip iso majority net).up ≡ net.up
up-cut_from port ip iso [] net = refl
up-cut_from port ip iso (maj ∷ majority) net =
    up-cut_from port ip iso majority (cut_pair port ip iso maj net)

pub up-cut_all :
    (port : String) (ip : String → String) (isolate majority : List String) (net : Network)
    → (cut_all port ip isolate majority net).up ≡ net.up
up-cut_all port ip [] majority net = refl
up-cut_all port ip (iso ∷ isolate) majority net =
    up-cut_all port ip isolate majority (cut_from port ip iso majority net)
    ∙ up-cut_from port ip iso majority net

module _ (side : Side) (port : String) (ip : String → String) (k p : String) where
  drops-cut_pair :
      (iso maj : String) (net : Network)
      → net.up iso ≡ true
      → net.up maj ≡ true
      → drops side port (cut_pair port ip iso maj net) k p
        ≡ hits ip iso maj k p + drops side port net k p
  drops-cut_pair iso maj net a b = omega (
    arith,
    drops-cut side port maj (ip iso) (cut port iso (ip maj) net) k p b,
    drops-cut side port iso (ip maj) net k p a,
  )

  drops-cut_from :
      (iso : String) (majority : List String) (net : Network)
      → net.up iso ≡ true
      → Up net majority
      → drops side port (cut_from port ip iso majority net) k p
        ≡ hits_from ip iso majority k p + drops side port net k p
  drops-cut_from iso [] net a b = omega arith
  drops-cut_from iso (maj ∷ majority) net a b = omega (
    arith,
    drops-cut_from iso majority (cut_pair port ip iso maj net) a b.1,
    drops-cut_pair iso maj net a b.0,
  )

  -- The rules that were there stay, and each pair adds its own.
  pub drops-cut_all :
      (isolate majority : List String) (net : Network)
      → Up net isolate
      → Up net majority
      → drops side port (cut_all port ip isolate majority net) k p
        ≡ hits_all ip isolate majority k p + drops side port net k p
  drops-cut_all [] majority net a b = omega arith
  drops-cut_all (iso ∷ isolate) majority net a b = omega (
    arith,
    drops-cut_all isolate majority (cut_from port ip iso majority net)
        (subst (λ u. All (λ n. u n ≡ true) isolate) (sym (up-cut_from port ip iso majority net))
          a.1)
        (subst (λ u. All (λ n. u n ≡ true) majority) (sym (up-cut_from port ip iso majority net))
          b),
    drops-cut_from iso majority net a.0 b,
  )
