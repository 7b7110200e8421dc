-- ===== src/Tests/Integers.antt =====
-- Whole numbers, as numbers that a way is computed with.
use atividade_consenso_raft.Base.{
  ℕ, zero, suc, ◌/◌, String, Bool, true, false, decimal, concat, [], ◌∷◌, ◌≡◌, refl, ap, ap₂, sym,
  ◌∙◌, arith,
}
use mathlib.Core.Nat.{ℕ as Unary, zero as none_of, suc as next}
use mathlib.Core.Int.{
  ℤ, pos, negsuc, suc_ℤ, pred_ℤ, ◌+ℤ◌, ◌-ℤ◌, neg_ℤ, ◌*ℤ◌, +ℤ_comm, +ℤ_assoc, zero-*ℤ, suc_ℤ-*ℤ,
  pred_ℤ-*ℤ, *ℤ_comm, pos-*ℤ-pos, pos-+ℤ-pos, negsuc-*ℤ-negsuc, neg_ℤ-+ℤ, +ℤ-neg_ℤ_cancel, +ℤ_invl,
  +ℤ_idl, *ℤ-one, one, nat_abs,
}
use atividade_consenso_raft.Geometry.Arithmetic.{Numbers}
use atividade_consenso_raft.Geometry.Ways.{Laws}

abbrev pub unary : ℕ → Unary
unary zero = none_of
unary (suc n) = next (unary n)

abbrev native : Unary → ℕ
native none_of = zero
native (next n) = suc (native n)

abbrev is_negative : ℤ → Bool
is_negative (pos n) = false
is_negative (negsuc n) = true

abbrev is_nothing : ℤ → Bool
is_nothing (pos none_of) = true
is_nothing _ = false

abbrev part_of : Unary → Unary → ℤ
part_of a b = pos (unary (native a / native b))

-- Towards zero.
abbrev quotient : ℤ → ℤ → ℤ
quotient (pos a) (pos b) = part_of a b
quotient (pos a) (negsuc b) = neg_ℤ (part_of a (next b))
quotient (negsuc a) (pos b) = neg_ℤ (part_of (next a) b)
quotient (negsuc a) (negsuc b) = part_of (next a) (next b)

abbrev int_text : ℤ → String
int_text (pos n) = decimal (native n)
int_text (negsuc n) = concat ("-" ∷ decimal (suc (native n)) ∷ [])

-- Distances are counted along the axes.
instance abbrev pub integers : Numbers
integers = record {
  Number = ℤ;
  of_nat = λ n. pos (unary n);
  pi = pos (unary 3);
  add = λ a b. a +ℤ b;
  sub = λ a b. a -ℤ b;
  mul = λ a b. a *ℤ b;
  div = quotient;
  negate = neg_ℤ;
  less = λ a b. is_negative (a -ℤ b);
  at_most = λ a b. is_negative (a -ℤ b -ℤ one);
  is_zero = is_nothing;
  cos = λ a. one;
  sin = λ a. pos none_of;
  hypot = λ a b. pos (nat_abs a) +ℤ pos (nat_abs b);
  is_falsy = is_nothing;
  text = int_text;
}

interchange : (a b c d : ℤ) → a +ℤ b +ℤ (c +ℤ d) ≡ a +ℤ c +ℤ (b +ℤ d)
interchange a b c d =
    +ℤ_assoc a b (c +ℤ d)
    ∙ ap (λ x. a +ℤ x) (sym (+ℤ_assoc b c d) ∙ ap (λ x. x +ℤ d) (+ℤ_comm b c) ∙ +ℤ_assoc c b d)
    ∙ sym (+ℤ_assoc a c (b +ℤ d))

-- What holds of 0, and of the next and the last integer where it holds of one, holds of all.
induct :
    (P : ℤ → Type 0)
    → P (pos none_of)
    → ((k : ℤ) → P k → P (suc_ℤ k))
    → ((k : ℤ) → P k → P (pred_ℤ k))
    → (k : ℤ) → P k
induct P base up down (pos none_of) = base
induct P base up down (pos (next n)) = up (pos n) (induct P base up down (pos n))
induct P base up down (negsuc none_of) = down (pos none_of) base
induct P base up down (negsuc (next n)) = down (negsuc n) (induct P base up down (negsuc n))

abbrev IsLinear : ℤ → Type 0
IsLinear a = (b c : ℤ) → a *ℤ (b +ℤ c) ≡ a *ℤ b +ℤ a *ℤ c

*ℤ-+ℤ : (a : ℤ) → IsLinear a
*ℤ-+ℤ =
    induct IsLinear (λ b c. zero-*ℤ (b +ℤ c) ∙ sym (ap₂ (λ x y. x +ℤ y) (zero-*ℤ b) (zero-*ℤ c)))
      (λ k h b c.
        suc_ℤ-*ℤ k (b +ℤ c)
        ∙ ap (λ x. x +ℤ (b +ℤ c)) (h b c)
        ∙ interchange (k *ℤ b) (k *ℤ c) b c
        ∙ sym (ap₂ (λ x y. x +ℤ y) (suc_ℤ-*ℤ k b) (suc_ℤ-*ℤ k c)))
      (λ k h b c.
        pred_ℤ-*ℤ k (b +ℤ c)
        ∙ ap₂ (λ x y. x +ℤ y) (h b c) (neg_ℤ-+ℤ b c)
        ∙ interchange (k *ℤ b) (k *ℤ c) (neg_ℤ b) (neg_ℤ c)
        ∙ sym (ap₂ (λ x y. x +ℤ y) (pred_ℤ-*ℤ k b) (pred_ℤ-*ℤ k c)))

-- The other factor distributes too.
+ℤ-*ℤ : (a b c : ℤ) → (a +ℤ b) *ℤ c ≡ a *ℤ c +ℤ b *ℤ c
+ℤ-*ℤ a b c = *ℤ_comm (a +ℤ b) c ∙ *ℤ-+ℤ c a b ∙ ap₂ (λ x y. x +ℤ y) (*ℤ_comm c a) (*ℤ_comm c b)

neg_ℤ-*ℤ : (a b : ℤ) → neg_ℤ a *ℤ b ≡ neg_ℤ (a *ℤ b)
neg_ℤ-*ℤ a b =
    sym (+ℤ-neg_ℤ_cancel (neg_ℤ a *ℤ b) (a *ℤ b))
    ∙ ap (λ x. x -ℤ a *ℤ b) (sym (+ℤ-*ℤ (neg_ℤ a) a b) ∙ ap (λ x. x *ℤ b) (+ℤ_invl a) ∙ zero-*ℤ b)
    ∙ +ℤ_idl (neg_ℤ (a *ℤ b))

abbrev IsAssociative : ℤ → Type 0
IsAssociative a = (b c : ℤ) → a *ℤ b *ℤ c ≡ a *ℤ (b *ℤ c)

*ℤ_assoc : (a : ℤ) → IsAssociative a
*ℤ_assoc =
    induct IsAssociative (λ b c. ap (λ x. x *ℤ c) (zero-*ℤ b) ∙ zero-*ℤ c ∙ sym (zero-*ℤ (b *ℤ c)))
      (λ k h b c.
        ap (λ x. x *ℤ c) (suc_ℤ-*ℤ k b)
        ∙ +ℤ-*ℤ (k *ℤ b) b c
        ∙ ap (λ x. x +ℤ b *ℤ c) (h b c)
        ∙ sym (suc_ℤ-*ℤ k (b *ℤ c)))
      (λ k h b c.
        ap (λ x. x *ℤ c) (pred_ℤ-*ℤ k b)
        ∙ +ℤ-*ℤ (k *ℤ b) (neg_ℤ b) c
        ∙ ap₂ (λ x y. x +ℤ y) (h b c) (neg_ℤ-*ℤ b c)
        ∙ sym (pred_ℤ-*ℤ k (b *ℤ c)))

abbrev Positive : ℤ → Type 0
Positive a = is_negative (a -ℤ pos none_of) ≡ false

add-Positive : (a b : ℤ) → Positive a → Positive b → Positive (a +ℤ b)
add-Positive (pos a) (pos b) h k = ap is_negative (pos-+ℤ-pos a b)
add-Positive (pos a) (negsuc b) h k = absurd (ground arith)
add-Positive (negsuc a) b h k = absurd (ground arith)

mul-Positive : (a b : ℤ) → Positive a → Positive b → Positive (a *ℤ b)
mul-Positive (pos a) (pos b) h k = ap is_negative (pos-*ℤ-pos a b)
mul-Positive (pos a) (negsuc b) h k = absurd (ground arith)
mul-Positive (negsuc a) b h k = absurd (ground arith)

half-Positive : (a : ℤ) → Positive a → Positive (quotient a (pos (unary 2)))
half-Positive (pos a) h = refl
half-Positive (negsuc a) h = absurd (ground arith)

minus_one-mul : (a : ℤ) → is_negative (a -ℤ pos none_of) ≡ true → Positive (negsuc none_of *ℤ a)
minus_one-mul (pos a) h = absurd (ground arith)
minus_one-mul (negsuc a) h = ap is_negative (negsuc-*ℤ-negsuc none_of a)

pub integer_laws : Laws ⦃m = integers⦄
unfolding one
integer_laws = record {
  mul_comm = *ℤ_comm;
  mul_assoc = *ℤ_assoc;
  mul-add = *ℤ-+ℤ;
  sub-add = λ a b. ap (λ x. x -ℤ a) (+ℤ_comm a b) ∙ +ℤ-neg_ℤ_cancel b a;
  one-mul = λ a. *ℤ_comm one a ∙ *ℤ-one a;
  negate-mul = minus_one-mul;
  not_negative = λ n. refl;
  add-not_negative = add-Positive;
  mul-not_negative = mul-Positive;
  half-not_negative = half-Positive;
  minus_one = refl;
}
