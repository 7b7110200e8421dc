-- ===== src/Node/Message.antt =====
-- infra/node/event.go: the event as a node has it, with the fields of Go, and as it goes out in JSON.
use atividade_consenso_raft.Base.{
  ℕ, String, Bool, true, false, Option, none, some, nat_eq, string_eq, ◌==◌, or_default, ◌≡◌, refl,
  arith, if◌then◌else◌,
}
use atividade_consenso_raft.Event.{Event, or_zero}

-- `event`; a field that is not set has the zero of its type.
pub record Published : Type 0 where
  pub type : String
  pub node : String
  pub role : String
  pub term : ℕ
  pub commit_index : ℕ
  pub last_log_idx : ℕ
  pub last_applied : ℕ
  pub heartbeat_ms : ℕ
  pub from : String
  pub to : String
  pub rpc : String
  pub prev_idx : ℕ
  pub entries : ℕ
  pub success : Bool
  pub granted : Bool
  pub index : ℕ
  pub command : String
  pub key : String
  pub value : String

abbrev pub event : String → String → Published
event type node = record {
  type = type;
  node = node;
  role = "";
  term = 0;
  commit_index = 0;
  last_log_idx = 0;
  last_applied = 0;
  heartbeat_ms = 0;
  from = "";
  to = "";
  rpc = "";
  prev_idx = 0;
  entries = 0;
  success = false;
  granted = false;
  index = 0;
  command = "";
  key = "";
  value = "";
}

-- `omitempty`
abbrev pub text_field : String → Option String
text_field s = if s == "" then none else some s

abbrev pub number_field : ℕ → Option ℕ
number_field n = if n == 0 then none else some n

abbrev pub bool_field : Bool → Option Bool
bool_field false = none
bool_field true = some true

-- `enc.Encode(e)`, as the page's JSON.parse reads it; the page reads no prev_idx.
unfoldable pub encode : Published → Event
encode e = record {
  type = e.type;
  node = text_field e.node;
  role = text_field e.role;
  term = number_field e.term;
  commit_idx = number_field e.commit_index;
  last_log_idx = number_field e.last_log_idx;
  last_applied = number_field e.last_applied;
  heartbeat_ms = number_field e.heartbeat_ms;
  from = text_field e.from;
  to = text_field e.to;
  rpc = text_field e.rpc;
  entries = number_field e.entries;
  success = bool_field e.success;
  granted = bool_field e.granted;
  index = number_field e.index;
  command = text_field e.command;
  key = text_field e.key;
  value = text_field e.value;
}

pub or_zero-number_field : (n : ℕ) → or_zero (number_field n) ≡ n
or_zero-number_field n = ground arith

pub or_default-text_field : (s : String) → or_default (text_field s) "" ≡ s
or_default-text_field s = ground (arith, string_eq.test_iff s "")

pub or_default-bool_field : (b : Bool) → or_default (bool_field b) false ≡ b
or_default-bool_field false = refl
or_default-bool_field true = refl

-- What is read of an event with the zeros for the fields that are missing.
abbrev pub decode : Event → ℕ → Published
decode e prev_idx = record {
  type = e.type;
  node = or_default e.node "";
  role = or_default e.role "";
  term = or_zero e.term;
  commit_index = or_zero e.commit_idx;
  last_log_idx = or_zero e.last_log_idx;
  last_applied = or_zero e.last_applied;
  heartbeat_ms = or_zero e.heartbeat_ms;
  from = or_default e.from "";
  to = or_default e.to "";
  rpc = or_default e.rpc "";
  prev_idx = prev_idx;
  entries = or_zero e.entries;
  success = or_default e.success false;
  granted = or_default e.granted false;
  index = or_zero e.index;
  command = or_default e.command "";
  key = or_default e.key "";
  value = or_default e.value "";
}

-- Leaving out the fields that are zero loses nothing: a reader that takes zero for a field that is
-- missing has the event that the node published, but for the prev_idx, which the page does not read.
pub decode-encode : (e : Published) → decode (encode e) e.prev_idx ≡ e
unfolding encode
decode-encode e = λ i. record {
  type = e.type;
  node = or_default-text_field e.node i;
  role = or_default-text_field e.role i;
  term = or_zero-number_field e.term i;
  commit_index = or_zero-number_field e.commit_index i;
  last_log_idx = or_zero-number_field e.last_log_idx i;
  last_applied = or_zero-number_field e.last_applied i;
  heartbeat_ms = or_zero-number_field e.heartbeat_ms i;
  from = or_default-text_field e.from i;
  to = or_default-text_field e.to i;
  rpc = or_default-text_field e.rpc i;
  prev_idx = e.prev_idx;
  entries = or_zero-number_field e.entries i;
  success = or_default-bool_field e.success i;
  granted = or_default-bool_field e.granted i;
  index = or_zero-number_field e.index i;
  command = or_default-text_field e.command i;
  key = or_default-text_field e.key i;
  value = or_default-text_field e.value i;
}
