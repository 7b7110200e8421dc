-- ===== src/Store/Links/Silence.antt =====
-- The rule of silence: when a link counts as down.
use atividade_consenso_raft.Base.{
  ℕ, ◌+◌, ◌*◌, ◌≤◌, ◌<◌, ◌-◌, String, string_eq, true, false, Option, some, none, Map, [], ◌∷◌,
  get?, get?-insert, ◌≡◌, refl, ap, ◌↔◌, ◌==◌, if◌then◌else◌, arith, Option-cases, inl, inr,
  beq_refl, ltb,
}
use atividade_consenso_raft.Store.State.{Link, State, link_key}
use atividade_consenso_raft.Store.Links.{
  mark_key, mark_resp_seen, silence, silence_all, tick_silence,
}
use atividade_consenso_raft.Store.Links.Keys.{link_key_comm}

-- The link between two nodes.
abbrev pub link_of : String → String → State → Option Link
link_of a b s = get? (link_key a b) s.links

unfoldable pub silent : ℕ → ℕ → Option Link → Option Link
silent now limit none = none
silent now limit (some l) = some (silence now limit l)

pub get?-silence_all :
    (now limit : ℕ) (k : String) (m : Map String Link)
    → get? k (silence_all now limit m) ≡ silent now limit (get? k m)
unfolding get? silence_all silent
get?-silence_all now limit k [] = refl
get?-silence_all now limit k ((j, l) ∷ m) = ground (arith, get?-silence_all now limit k m)

-- After a tick a link is down exactly when its last answer is more than two heartbeats old; no link
-- comes or goes, and no tick counts as an answer.
pub tick_silence_down :
    (now : ℕ) (s : State) (a b : String) (l : Link)
    → link_of a b s ≡ some l
    → (l' : Link) × (link_of a b (tick_silence now s) ≡ some l')
      × (l'.last_resp ≡ l.last_resp)
      × ((l'.down ≡ true) ↔ (l.last_resp + 2 * s.heartbeat_ms < now))
unfolding tick_silence silent silence
tick_silence_down now s a b l h = (
  record l { down = ltb (2 * s.heartbeat_ms) (now - l.last_resp) },
  rw (get?-silence_all, h),
  refl,
  ground arith,
)

-- The two ends of an answer are noted as one link.
pub mark_resp_seen_comm :
    (a b : String) (t : ℕ) (s : State) → mark_resp_seen a b t s ≡ mark_resp_seen b a t s
unfolding mark_resp_seen
mark_resp_seen_comm a b t s = ap (λ k. mark_key k t s) (link_key_comm a b)

-- The links after an answer.
abbrev pub answered_at : ℕ → Option Link → Link
answered_at t none = record { last_resp = t; down = false }
answered_at t (some l) = record l { last_resp = t }

pub get?-mark_key :
    (k j : String) (t : ℕ) (s : State)
    → get? j (mark_key k t s).links
      ≡ (if k == j then some (answered_at t (get? k s.links)) else get? j s.links)
unfolding mark_key
get?-mark_key k j t s = elim (Option-cases (get? k s.links)) [
  | inl e ↦ rw (e, mark_key) (get?-insert k j _ s.links)
  | inr (l, e) ↦ rw (e, mark_key) (get?-insert k j _ s.links)
]

answered_at-last_resp : (t : ℕ) (o : Option Link) → (answered_at t o).last_resp ≡ t
answered_at-last_resp t none = refl
answered_at-last_resp t (some l) = refl

mark_key-heartbeat :
    (k : String) (t : ℕ) (s : State) → (mark_key k t s).heartbeat_ms ≡ s.heartbeat_ms
unfolding mark_key
mark_key-heartbeat k t s = ground arith

link_of-tick_silence :
    (now : ℕ) (s : State) (a b : String)
    → link_of a b (tick_silence now s) ≡ silent now (2 * s.heartbeat_ms) (link_of a b s)
unfolding tick_silence
link_of-tick_silence now s a b = get?-silence_all now (2 * s.heartbeat_ms) (link_key a b) s.links

-- After an answer at `t`, in either direction, every tick up to two heartbeats later shows the link
-- as up.
pub tick_silence-mark_resp_seen :
    (a b : String) (t now : ℕ) (s : State)
    → now ≤ t + 2 * s.heartbeat_ms
    → (l : Link) × (link_of b a (tick_silence now (mark_resp_seen a b t s)) ≡ some l)
      × (l.last_resp ≡ t)
      × (l.down ≡ false)
unfolding mark_resp_seen silent silence
tick_silence-mark_resp_seen a b t now s h = (
  silence now (2 * s.heartbeat_ms) marked,
  rw (
    link_of-tick_silence,
    link_key_comm b a,
    get?-mark_key,
    beq_refl (link_key a b),
    mark_key-heartbeat,
  ),
  answered_at-last_resp t (get? (link_key a b) s.links),
  ground (arith, answered_at-last_resp t (get? (link_key a b) s.links)),
)
  where
    marked : Link
    marked = answered_at t (get? (link_key a b) s.links)
