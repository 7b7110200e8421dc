-- ===== src/Base/Tests.antt =====
-- Boolean tests, the conditional, and equality as an interface.
use Prim.Native.Nat.{ℕ, compare, Ordering}
use Prim.Native.String.{String}
use mathlib.Core.Path.{◌≡◌, refl}
use mathlib.Core.Logic.{◌↔◌, ◌⊎◌, inl, inr}
use mathlib.Core.Bool.{Bool, true, false, ◌&&◌}
use mathlib.Core.List.{List, [], ◌∷◌}
use mathlib.Core.Option.{Option, none, some}
use native.Mathlib.Omega.{arith}
use text.Mathlib.Text.{◌==◌ as str_same}
use text.Mathlib.TextEquality.{eq_iff}

abbrev pub ltb : ℕ → ℕ → Bool
ltb a b = elim (compare a b) [ Ordering.lt ↦ true | _ ↦ false ]

abbrev pub leb : ℕ → ℕ → Bool
leb a b = elim (compare a b) [ Ordering.gt ↦ false | _ ↦ true ]

abbrev pub nat_beq : ℕ → ℕ → Bool
nat_beq a b = elim (compare a b) [ Ordering.eq ↦ true | _ ↦ false ]

infix 1 if◌then◌else◌
abbrev pub if◌then◌else◌ {ℓ} : {A : Type ℓ} → Bool → A → A → A
if true then x else y = x
if false then x else y = y

-- What `===` decides on a type.
pub record Equality {ℓ} (A : Type ℓ) : Type ℓ where
  pub test : A → A → Bool
  pub test_iff : (x y : A) → (test x y ≡ true) ↔ (x ≡ y)

infix 50 ◌==◌
abbrev pub ◌==◌ {ℓ} : {A : Type ℓ} ⦃e : Equality A⦄ → A → A → Bool
◌==◌ ⦃e = eq⦄ x y = eq.test x y

-- `===` on values of which one may be `undefined`.
abbrev pub option_beq {ℓ} : {A : Type ℓ} ⦃e : Equality A⦄ → Option A → Option A → Bool
option_beq none none = true
option_beq none (some _) = false
option_beq (some _) none = false
option_beq (some a) (some b) = a == b

pub option_beq_iff {ℓ} :
    {A : Type ℓ} ⦃e : Equality A⦄ (a b : Option A) → (option_beq a b ≡ true) ↔ (a ≡ b)
option_beq_iff none none = ground arith
option_beq_iff none (some _) = ground arith
option_beq_iff (some _) none = ground arith
option_beq_iff ⦃e⦄ (some a) (some b) = ground (arith, e.test_iff a b)

instance abbrev pub option_eq {ℓ} : {A : Type ℓ} ⦃e : Equality A⦄ → Equality (Option A)
option_eq = record { test = option_beq; test_iff = option_beq_iff }

-- Equality of lists, element by element.
abbrev pub list_beq {ℓ} : {A : Type ℓ} ⦃e : Equality A⦄ → List A → List A → Bool
list_beq [] [] = true
list_beq [] (_ ∷ _) = false
list_beq (_ ∷ _) [] = false
list_beq (x ∷ xs) (y ∷ ys) = x == y && list_beq xs ys

pub list_beq_iff {ℓ} :
    {A : Type ℓ} ⦃e : Equality A⦄ (xs ys : List A) → (list_beq xs ys ≡ true) ↔ (xs ≡ ys)
list_beq_iff [] [] = ground arith
list_beq_iff [] (_ ∷ _) = ground arith
list_beq_iff (_ ∷ _) [] = ground arith
list_beq_iff ⦃e⦄ (x ∷ xs) (y ∷ ys) = ground (arith, e.test_iff x y, list_beq_iff xs ys)

instance abbrev pub list_eq {ℓ} : {A : Type ℓ} ⦃e : Equality A⦄ → Equality (List A)
list_eq = record { test = list_beq; test_iff = list_beq_iff }

pub nat_beq_iff : (m n : ℕ) → (nat_beq m n ≡ true) ↔ (m ≡ n)
nat_beq_iff m n = ground arith

instance abbrev pub string_eq : Equality String
string_eq = record { test = str_same; test_iff = eq_iff }

instance abbrev pub nat_eq : Equality ℕ
nat_eq = record { test = nat_beq; test_iff = nat_beq_iff }

-- `??`
abbrev pub or_default {ℓ} : {A : Type ℓ} → Option A → A → A
or_default none d = d
or_default (some a) d = a

abbrev pub is_some {ℓ} : {A : Type ℓ} → Option A → Bool
is_some none = false
is_some (some a) = true

-- To split on a computed value and keep the equation.
pub Bool-cases : (b : Bool) → (b ≡ true) ⊎ (b ≡ false)
Bool-cases true = inl refl
Bool-cases false = inr refl

pub Option-cases {ℓ} : {A : Type ℓ} (o : Option A) → (o ≡ none) ⊎ ((a : A) × (o ≡ some a))
Option-cases none = inl refl
Option-cases (some a) = inr (a, refl)

module _ {ℓ} {A : Type ℓ} ⦃e : Equality A⦄ where
  pub beq_refl : (a : A) → (a == a) ≡ true
  beq_refl a = (e.test_iff a a).1 refl

  pub beq_sound : {a b : A} → (a == b) ≡ true → a ≡ b
  beq_sound {a} {b} h = (e.test_iff a b).0 h

  pub beq-cases : (a b : A) → (a ≡ b) ⊎ ((a == b) ≡ false)
  beq-cases a b = elim (Bool-cases (a == b)) [ inl h ↦ inl (beq_sound h) | inr h ↦ inr h ]

-- What holds of both branches holds of the conditional.
pub if_case {ℓ κ} :
    {A : Type ℓ} (P : A → Type κ) (b : Bool) {x y : A} → P x → P y → P (if b then x else y)
if_case P true p q = p
if_case P false p q = q
