-- ===== src/Base/Decimal.antt =====
-- A number in a template literal: its decimal digits.
use Prim.Native.Nat.{ℕ, zero, suc, ◌+◌, ◌-◌, ◌*◌, ◌/◌, ◌%◌, ◌<◌}
use Prim.Native.Char.{Char, code}
use Prim.Native.String.{String, ◌∷◌ as ◌∷ₛ◌}
use mathlib.Core.Path.{◌≡◌, refl, ap, sym, ◌∙◌}
use mathlib.Core.Bool.{true, false, ◌||◌, ◌&&◌}
use mathlib.Core.Option.{Option, none, some}
use mathlib.Core.Logic.{inl, inr}
use native.Mathlib.Omega.{arith}
use atividade_consenso_raft.Base.Tests.{ltb, leb, Bool-cases, if◌then◌else◌}
use atividade_consenso_raft.Base.Separators.{without}

unfoldable pub digit : ℕ → Char
digit zero = "0"
digit (suc zero) = "1"
digit (suc (suc zero)) = "2"
digit (suc (suc (suc zero))) = "3"
digit (suc (suc (suc (suc zero)))) = "4"
digit (suc (suc (suc (suc (suc zero))))) = "5"
digit (suc (suc (suc (suc (suc (suc zero)))))) = "6"
digit (suc (suc (suc (suc (suc (suc (suc zero))))))) = "7"
digit (suc (suc (suc (suc (suc (suc (suc (suc zero)))))))) = "8"
digit _ = "9"

-- The digits of `n` before `out`; fuel above `n` is enough, as each round divides by ten.
unfoldable pub digits : ℕ → ℕ → String → String
unfolding digit
digits zero n out = out
digits (suc fuel) n out = elim (ltb n 10) [
  | true ↦ digit n ∷ₛ out
  | false ↦ digits fuel (n / 10) (digit (n % 10) ∷ₛ out)
]

unfoldable pub decimal : ℕ → String
unfolding digits
decimal n = digits (suc n) n ""

code-digit : (d : ℕ) → d < 10 → code (digit d) ≡ d + 48
unfolding digit
code-digit zero h = refl
code-digit (suc zero) h = refl
code-digit (suc (suc zero)) h = refl
code-digit (suc (suc (suc zero))) h = refl
code-digit (suc (suc (suc (suc zero)))) h = refl
code-digit (suc (suc (suc (suc (suc zero))))) h = refl
code-digit (suc (suc (suc (suc (suc (suc zero)))))) h = refl
code-digit (suc (suc (suc (suc (suc (suc (suc zero))))))) h = refl
code-digit (suc (suc (suc (suc (suc (suc (suc (suc zero)))))))) h = refl
code-digit (suc (suc (suc (suc (suc (suc (suc (suc (suc zero))))))))) h = refl
code-digit (suc (suc (suc (suc (suc (suc (suc (suc (suc (suc d)))))))))) h = absurd (omega arith)

-- The number that a text of digits stands for, behind the digits read so far.
value : ℕ → String → ℕ
value n String.[] = n
value n (c ∷ₛ s) = value (n * 10 + (code c - 48)) s

value-digits : (fuel n : ℕ) (out : String) → n < fuel → value 0 (digits fuel n out) ≡ value n out
unfolding digits value
value-digits zero n out h = absurd (omega arith)
value-digits (suc fuel) n out h = elim (Bool-cases (ltb n 10)) [
  | inl last ↦ rw (last, digits, code-digit n (ground arith)) (ap (λ k. value k out) (omega arith))
  | inr more ↦
      rw (more, digits)
        (value-digits fuel (n / 10) (digit (n % 10) ∷ₛ out) (ground arith)
          ∙ rw (code-digit (n % 10) (omega arith)) (ap (λ k. value k out) (omega arith)))
]

-- Reading a number back: none if a character is no digit.
unfoldable pub read_digits : ℕ → String → Option ℕ
read_digits n String.[] = some n
read_digits n (c ∷ₛ s) =
    if leb 48 (code c) && leb (code c) 57 then read_digits (n * 10 + (code c - 48)) s else none

read_digits-digit :
    (n d : ℕ) (out : String)
    → d < 10
    → read_digits n (digit d ∷ₛ out) ≡ read_digits (n * 10 + d) out
unfolding read_digits
read_digits-digit n d out h =
    rw (code-digit d h) (ground (arith, ap (λ (k : ℕ). read_digits (n * 10 + k) out) (back d)))
  where
    back : (k : ℕ) → k + 48 - 48 ≡ k
    back k = omega arith

read_digits-digits :
    (fuel n : ℕ) (out : String) → n < fuel → read_digits 0 (digits fuel n out) ≡ read_digits n out
unfolding digits
read_digits-digits zero n out h = absurd (omega arith)
read_digits-digits (suc fuel) n out h = elim (Bool-cases (ltb n 10)) [
  | inl last ↦
      rw (last, digits)
        (read_digits-digit 0 n out (ground arith) ∙ ap (λ k. read_digits k out) (omega arith))
  | inr more ↦
      rw (more, digits)
        (read_digits-digits fuel (n / 10) (digit (n % 10) ∷ₛ out) (ground arith)
          ∙ read_digits-digit (n / 10) (n % 10) out (omega arith)
          ∙ ap (λ k. read_digits k out) (omega arith))
]

pub read_digits-decimal : (n : ℕ) → read_digits 0 (decimal n) ≡ some n
unfolding decimal read_digits
read_digits-decimal n = read_digits-digits (suc n) n "" (omega arith)

-- A number is printed so that it can be read again, so different numbers differ as texts.
pub decimal_injective : (m n : ℕ) → decimal m ≡ decimal n → m ≡ n
unfolding decimal value
decimal_injective m n h =
    sym (value-digits (suc m) m "" (omega arith))
    ∙ ap (value 0) h
    ∙ value-digits (suc n) n "" (omega arith)

without-digits :
    (c : Char) (fuel n : ℕ) (out : String)
    → (ltb (code c) 48 || ltb 57 (code c)) ≡ true
    → without c out ≡ true
    → without c (digits fuel n out) ≡ true
unfolding digits without
without-digits c zero n out h k = k
without-digits c (suc fuel) n out h k = elim (Bool-cases (ltb n 10)) [
  | inl last ↦ let d = code-digit n (ground arith) in rw (last, digits) (ground arith)
  | inr more ↦
      let d = code-digit (n % 10) (omega arith) in
      rw (more, digits) (without-digits c fuel (n / 10) (digit (n % 10) ∷ₛ out) h (ground arith))
]

pub without-decimal :
    (c : Char) (n : ℕ) → (ltb (code c) 48 || ltb 57 (code c)) ≡ true → without c (decimal n) ≡ true
unfolding decimal without
without-decimal c n h = without-digits c (suc n) n "" h refl
