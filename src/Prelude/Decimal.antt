-- ===== src/Prelude/Decimal.antt =====
-- Numbers printed by `{}` and read back.
use Prim.Native.Nat.{ℕ, zero, suc, ◌+◌, ◌-◌, ◌*◌, ◌/◌, ◌%◌, ◌<◌}
use mathlib.Core.Bool.{Bool, true}
use mathlib.Core.Path.{◌≡◌, refl, ap, ◌∙◌, sym}
use mathlib.Core.List.{[], ◌∷◌, ◌++◌}
use mathlib.Core.Logic.{◌≢◌, inl, inr}
use native.Mathlib.Omega.{arith}
use knot_ops.Prelude.Tests.{◌==◌, if◌then◌else◌, Bool-cases}
use knot_ops.Prelude.Lists.{all}
use knot_ops.Prelude.Texts.{Text}

-- Digits from the last one on, with fuel; `suc n` rounds are enough for `n`.
decimal_digits : ℕ → ℕ → Text → Text
decimal_digits zero n out = out
decimal_digits (suc fuel) n out =
    let out' = (b'0' + n % 10) ∷ out in
    let rest = decimal_digits fuel (n / 10) out' in if n / 10 == 0 then out' else rest

unfoldable pub decimal : ℕ → Text
unfolding decimal_digits
decimal n = decimal_digits (suc n) n []

-- The number that digits spell behind `n`.
unfoldable pub value : ℕ → Text → ℕ
value n [] = n
value n (c ∷ s) = value (n * 10 + (c - b'0')) s

value-decimal_digits :
    (fuel n : ℕ) (out : Text) → n < fuel → value 0 (decimal_digits fuel n out) ≡ value n out
unfolding decimal_digits value
value-decimal_digits zero n out h = elim h [ ]
value-decimal_digits (suc fuel) n out h = elim (Bool-cases (n / 10 == 0)) [
  | inl last ↦ rw last (ap (λ m. value m out) (ground arith))
  | inr more ↦ rw more (
      value-decimal_digits fuel (n / 10) ((b'0' + n % 10) ∷ out) (ground arith)
      ∙ ap (λ m. value m out) (omega arith))
]

pub value-decimal : (n : ℕ) → value 0 (decimal n) ≡ n
unfolding decimal value
value-decimal n = value-decimal_digits (suc n) n [] (omega arith)

pub decimal_injective : (m n : ℕ) → decimal m ≡ decimal n → m ≡ n
decimal_injective m n h = sym (value-decimal m) ∙ (ap (value 0) h ∙ value-decimal n)

decimal_digits-append :
    (fuel n : ℕ) (out rest : Text)
    → decimal_digits fuel n out ++ rest ≡ decimal_digits fuel n (out ++ rest)
unfolding decimal_digits
decimal_digits-append zero n out rest = refl
decimal_digits-append (suc fuel) n out rest =
    ground (arith, decimal_digits-append fuel (n / 10) ((b'0' + n % 10) ∷ out) rest)

-- A function that reads digits one by one, for numbers below `bound`.
abbrev pub ReadsDigits {ℓ} : {A : Type ℓ} → (ℕ → Text → A) → ℕ → Type ℓ
ReadsDigits read bound =
    (n d : ℕ) (s : Text)
    → d < 10
    → n * 10 + d < bound
    → read n ((b'0' + d) ∷ s) ≡ read (n * 10 + d) s

read-decimal_digits {ℓ} :
    {A : Type ℓ} (read : ℕ → Text → A) (bound fuel n : ℕ) (out : Text)
    → ReadsDigits read bound
    → n < fuel
    → n < bound
    → read 0 (decimal_digits fuel n out) ≡ read n out
unfolding decimal_digits
read-decimal_digits read bound zero n out step h small = elim h [ ]
read-decimal_digits read bound (suc fuel) n out step h small = elim (Bool-cases (n / 10 == 0)) [
  | inl last ↦
      rw last
        (step 0 (n % 10) out (omega arith) (omega arith) ∙ ap (λ m. read m out) (ground arith))
  | inr more ↦ rw more (
      read-decimal_digits read bound (fuel) (n / 10) ((b'0' + n % 10) ∷ out) step (ground arith)
        (omega arith)
      ∙ step (n / 10) (n % 10) out (omega arith) (omega arith)
      ∙ ap (λ m. read m out) (omega arith))
]

-- Such a function reads a printed number as that number, and goes on behind it.
pub read-decimal {ℓ} :
    {A : Type ℓ} (read : ℕ → Text → A) (bound n : ℕ) (rest : Text)
    → ReadsDigits read bound
    → n < bound
    → read 0 (decimal n ++ rest) ≡ read n rest
unfolding decimal
read-decimal read bound n rest step small =
    ap (read 0) (decimal_digits-append (suc n) n [] rest)
    ∙ read-decimal_digits read bound (suc n) n rest step (omega arith) small

all_digits :
    (p : ℕ → Bool) (fuel n : ℕ) (out : Text)
    → ((d : ℕ) → d < 10 → p (b'0' + d) ≡ true)
    → all p out ≡ true
    → all p (decimal_digits fuel n out) ≡ true
unfolding decimal_digits
all_digits p zero n out h o = o
all_digits p (suc fuel) n out h o =
    ground (arith, h (n % 10), all_digits p fuel (n / 10) ((b'0' + n % 10) ∷ out) h)

pub all-decimal :
    (p : ℕ → Bool) (n : ℕ) → ((d : ℕ) → d < 10 → p (b'0' + d) ≡ true) → all p (decimal n) ≡ true
unfolding decimal
all-decimal p n h = all_digits p (suc n) n [] h refl

-- A printed number has a first digit.
digits_start : (fuel n : ℕ) (out : Text) → n < fuel → decimal_digits fuel n out ≢ []
unfolding decimal_digits
digits_start zero n out h e = elim h [ ]
digits_start (suc fuel) n out h e = elim (Bool-cases (n / 10 == 0)) [
  | inl last ↦ absurd (ground (arith, e, last))
  | inr more ↦
      digits_start fuel (n / 10) ((b'0' + n % 10) ∷ out) (ground arith) (ground (arith, e, more))
]

pub decimal-ne-nil : (n : ℕ) → decimal n ≢ []
unfolding decimal
decimal-ne-nil n = digits_start (suc n) n [] (omega arith)
