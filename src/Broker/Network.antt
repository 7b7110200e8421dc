-- ===== src/Broker/Network.antt =====
-- What docker and iptables are relied on for: the containers that are up and the rules in them, which
-- the commands of infra/broker/broker.py change.
use atividade_consenso_raft.Base.{
  ℕ, suc, ◌-◌, nat_eq, string_eq, list_eq, ◌==◌, ◌&&◌, ◌||◌, not, String, Bool, true, false, some,
  List, [], ◌∷◌, ◌≡◌, if◌then◌else◌,
}
use atividade_consenso_raft.Broker.Docker.{Environment, inspect, iptables, carry_out, strip}

-- Which containers are up, and how often a rule stands in a chain of a container's tables. A rule
-- begins with its chain.
pub record Network : Type 0 where
  pub up : String → Bool
  pub installed : String → List String → ℕ

abbrev pub in_chain : String → List String → Bool
in_chain chain [] = false
in_chain chain (c ∷ rule) = c == chain

-- `docker start` and `docker stop`: a container that stops loses its tables.
abbrev pub started : String → Network → Network
started node net = record net { up = λ k. node == k || net.up k }

abbrev pub stopped : String → Network → Network
stopped node net = record {
  up = λ k. not (node == k) && net.up k;
  installed = λ k r. if node == k then 0 else net.installed k r;
}

-- `iptables -I`, `-D` and `-F` in a container that is up; none can be run in another.
abbrev pub inserted : String → List String → Network → Network
inserted node rule net = record net {
  installed = λ k r.
      if net.up node && node == k && rule == r then suc (net.installed k r) else net.installed k r;
}

abbrev pub deleted : String → List String → Network → Network
deleted node rule net = record net {
  installed = λ k r.
      if net.up node && node == k && rule == r then net.installed k r - 1 else net.installed k r;
}

abbrev pub flushed : String → String → Network → Network
flushed node chain net = record net {
  installed = λ k r. if net.up node && node == k && in_chain chain r then 0 else net.installed k r;
}

-- Docker answers in time, knows the containers that are named, and does what it documents; `ip` is the
-- address of a container while it is up. To ask a node by a GET changes no container and no rule.
pub record IsDocker {M : Type 0} (env : Environment M) (view : M → Network) (ip : String → String)
    : Type 0 where
  pub starts : (n : String) (m : M) → view (carry_out env ("start" ∷ n ∷ []) m) ≡ started n (view m)
  pub stops : (n : String) (m : M) → view (carry_out env ("stop" ∷ n ∷ []) m) ≡ stopped n (view m)
  pub inserts :
      (n : String) (rule : List String) (m : M)
      → view (carry_out env (iptables n "-I" rule) m) ≡ inserted n rule (view m)
  pub deletes :
      (n : String) (rule : List String) (m : M)
      → view (carry_out env (iptables n "-D" rule) m) ≡ deleted n rule (view m)
  pub flushes :
      (n : String) (chain : String) (m : M)
      → view (carry_out env (iptables n "-F" (chain ∷ [])) m) ≡ flushed n chain (view m)
  pub asks : (address : String) (m : M) → view (env.get address m).1 ≡ view m
  pub inspects : (n : String) (m : M) → view (env.run (inspect n) m).1 ≡ view m
  pub finds :
      (n : String) (m : M)
      → (view m).up n ≡ true
      → (env.run (inspect n) m).0 ≡ some (record { returncode = 0; stdout = ip n; stderr = "" })

-- Addresses are not empty and have no white space at their ends.
abbrev pub IsAddress : String → Type 0
IsAddress a = (strip a ≡ a) × ((a == "") ≡ false)
