-- ===== src/Facade/Pid/RoundTrip.antt =====
-- Which process ids are read back from a file.
use knot_ops.Prelude.{
  ℕ, ◌+◌, ◌*◌, ◌<◌, ◌^◌, true, not, Text, decimal, some, [], ◌∷◌, ◌++◌, ◌≡◌, ◌≢◌, ◌-◌, refl, sym,
  ap, ◌∙◌, arith, all, is_whitespace, trim-append, read-decimal, all-decimal, decimal-ne-nil,
}
use mathlib.Core.List.{append-nil}
use knot_ops.Facade.Pid.{is_digit, digits_u32, parse_u32, pid_of_text}

digit_step :
    (n d : ℕ) (s : Text)
    → d < 10
    → n * 10 + d < 2 ^ 32
    → digits_u32 n ((b'0' + d) ∷ s) ≡ digits_u32 (n * 10 + d) s
unfolding digits_u32
digit_step n d s h small = let e : b'0' + d - b'0' ≡ d = omega arith in rw e (ground arith)

digits_u32-decimal : (n : ℕ) → n < 2 ^ 32 → digits_u32 0 (decimal n) ≡ some n
unfolding digits_u32
digits_u32-decimal n small =
    ap (digits_u32 0) (sym (append-nil (decimal n)))
    ∙ read-decimal digits_u32 (2 ^ 32) n [] digit_step small

digit_not_space : (d : ℕ) → d < 10 → not (is_whitespace (b'0' + d)) ≡ true
unfolding is_whitespace
digit_not_space d h = ground arith

-- Digits are no sign, so they are read as they stand.
parse_digits : (s : Text) → s ≢ [] → all is_digit s ≡ true → parse_u32 s ≡ digits_u32 0 s
unfolding parse_u32
parse_digits [] some_digit h = absurd (some_digit refl)
parse_digits (c ∷ []) some_digit h = refl
parse_digits (c ∷ d ∷ s) some_digit h = ground arith

-- A number below 2 ^ 32 that was printed to a file, with white space around it or without, is the
-- process id that is read from the file.
pub pid_of_text-decimal :
    (n : ℕ) (lead trail : Text)
    → n < 2 ^ 32
    → all is_whitespace lead ≡ true
    → all is_whitespace trail ≡ true
    → pid_of_text (lead ++ (decimal n ++ trail)) ≡ some n
unfolding pid_of_text
pid_of_text-decimal n lead trail small l t =
    ap parse_u32 (trim-append lead (decimal n) trail l (all-decimal _ n digit_not_space) t)
    ∙ parse_digits (decimal n) (decimal-ne-nil n) (all-decimal is_digit n (λ d h. ground arith))
    ∙ digits_u32-decimal n small
