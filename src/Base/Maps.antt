-- ===== src/Base/Maps.antt =====
-- A JavaScript object used as a dictionary: its keys in the order of their first assignment.
use mathlib.Core.Path.{◌≡◌, refl, subst₂}
use mathlib.Core.Option.{Option, none, some}
use mathlib.Core.Logic.{inl, inr}
use mathlib.Core.List.{List, [], ◌∷◌}
use native.Mathlib.Omega.{arith}
use atividade_consenso_raft.Base.Tests.{
  Equality, ◌==◌, if◌then◌else◌, Bool-cases, beq_sound, or_default, Option-cases,
}
use atividade_consenso_raft.Base.Lists.{All}

abbrev pub Map {ℓ κ} : Type ℓ → Type κ → Type (ℓ ⊔ κ)
Map K V = List (K × V)

module _ {ℓ κ} {K : Type ℓ} {V : Type κ} ⦃e : Equality K⦄ where
  -- `m[k]`
  unfoldable pub get? : K → Map K V → Option V
  get? k [] = none
  get? k ((j, v) ∷ m) = if j == k then some v else get? k m

  -- `m[k] = v`: a new key goes to the end, an old one keeps its place.
  unfoldable pub insert : K → V → Map K V → Map K V
  insert k v [] = (k, v) ∷ []
  insert k v ((j, w) ∷ m) = if j == k then (j, v) ∷ m else (j, w) ∷ insert k v m

  -- `delete m[k]`
  unfoldable pub remove : K → Map K V → Map K V
  remove k [] = []
  remove k ((j, w) ∷ m) = if j == k then remove k m else (j, w) ∷ remove k m

  pub get?-remove :
      (k j : K) (m : Map K V) → get? j (remove k m) ≡ (if k == j then none else get? j m)
  unfolding get? remove
  get?-remove k j [] = ground arith
  get?-remove k j ((i, w) ∷ m) =
      ground (arith, e.test_iff k j, e.test_iff i k, e.test_iff i j, get?-remove k j m)

  pub get?-insert :
      (k j : K) (v : V) (m : Map K V)
      → get? j (insert k v m) ≡ (if k == j then some v else get? j m)
  unfolding get? insert
  get?-insert k j v [] = refl
  get?-insert k j v ((i, w) ∷ m) =
      ground (arith, e.test_iff k j, e.test_iff i k, e.test_iff i j, get?-insert k j v m)

  -- An assignment keeps what holds of all entries, if it holds of the new one.
  pub All-insert {μ} :
      (P : K → V → Type μ) (k : K) (v : V) (m : Map K V)
      → All (λ p. P p.0 p.1) m
      → P k v
      → All (λ p. P p.0 p.1) (insert k v m)
  unfolding insert
  All-insert P k v [] h p = (p, tt)
  All-insert P k v ((j, w) ∷ m) h p = ground (arith, e.test_iff j k, All-insert P k v m h.1 p)

  pub All-get? {μ} :
      (P : K → V → Type μ) (k : K) (m : Map K V) {v : V}
      → All (λ p. P p.0 p.1) m
      → get? k m ≡ some v
      → P k v
  unfolding get?
  All-get? P k [] h q = cc
  All-get? P k ((j, w) ∷ m) {v} h q = elim (Bool-cases (j == k)) [
    | inl hit ↦ subst₂ P (beq_sound hit) (cc hit) h.0
    | inr miss ↦ All-get? P k m h.1 (rw miss at q)
  ]

  pub All-get_or {μ} :
      (P : V → Type μ) (k : K) (m : Map K V) (d : V)
      → All (λ p. P p.1) m
      → P d
      → P (or_default (get? k m) d)
  All-get_or P k m d h p = elim (Option-cases (get? k m)) [
    | inl e' ↦ rw e' p
    | inr (v, e') ↦ rw e' (All-get? (λ _. P) k m h e')
  ]
