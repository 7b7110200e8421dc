-- ===== src/Event.antt =====
-- The events that the nodes publish (infra/node/event.go) and that the dashboard's handlers read. A
-- field that the node leaves out of the JSON is `none`, JavaScript's `undefined`.
use atividade_consenso_raft.Base.{
  decimal, ℕ, String, Bool, false, not, Option, none, some, ◌==◌, nat_eq, string_eq,
}

pub record Event : Type 0 where
  pub type : String
  pub node : Option String
  pub role : Option String
  pub term : Option ℕ
  pub commit_idx : Option ℕ
  pub last_log_idx : Option ℕ
  pub last_applied : Option ℕ
  pub heartbeat_ms : Option ℕ
  pub from : Option String
  pub to : Option String
  pub rpc : Option String
  pub entries : Option ℕ
  pub success : Option Bool
  pub granted : Option Bool
  pub index : Option ℕ
  pub command : Option String
  pub key : Option String
  pub value : Option String

-- An event with its type only.
abbrev pub bare : String → Event
bare type = record {
  type = type;
  node = none;
  role = none;
  term = none;
  commit_idx = none;
  last_log_idx = none;
  last_applied = none;
  heartbeat_ms = none;
  from = none;
  to = none;
  rpc = none;
  entries = none;
  success = none;
  granted = none;
  index = none;
  command = none;
  key = none;
  value = none;
}

-- Truth of a string and of a number: `undefined`, the empty string and 0 are false.
abbrev pub is_text : Option String → Bool
is_text none = false
is_text (some s) = not (s == "")

abbrev pub is_positive : Option ℕ → Bool
is_positive none = false
is_positive (some n) = not (n == 0)

-- `x || 0`
abbrev pub or_zero : Option ℕ → ℕ
or_zero none = 0
or_zero (some n) = n

-- `obj[x]` reads the property "undefined" where `x` is undefined.
abbrev pub prop_key : Option String → String
prop_key none = "undefined"
prop_key (some s) = s

-- In a template literal `undefined` is written out.
abbrev pub number_text : Option ℕ → String
number_text none = "undefined"
number_text (some n) = decimal n
