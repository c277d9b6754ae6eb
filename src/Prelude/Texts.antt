-- ===== src/Prelude/Texts.antt =====
-- Text as a list of Unicode scalar values: what `chars()` yields of a `str`.
use Prim.Native.Nat.{ℕ, zero, suc}
use Prim.Native.Char.{code}
use Prim.Native.String.{String}
use mathlib.Core.Path.{◌≡◌, refl, ap, ◌∙◌}
use mathlib.Core.Logic.{◌↔◌}
use mathlib.Core.Bool.{Bool, true, false, not, ◌&&◌, ◌||◌}
use mathlib.Core.List.{List, [], ◌∷◌, ◌++◌}
use native.Mathlib.Omega.{arith}
use knot_ops.Prelude.Tests.{◌==◌, leb, if◌then◌else◌}
use knot_ops.Prelude.Lists.{all, length, length-append}

abbrev pub Text : Type 0
Text = List ℕ

-- The text of a literal of the source.
abbrev pub codes : String → Text
codes String.[] = []
codes (String.◌∷◌ c s) = code c ∷ codes s

-- `==` of `str`.
unfoldable pub text_eq : Text → Text → Bool
text_eq [] [] = true
text_eq [] (d ∷ t) = false
text_eq (c ∷ s) [] = false
text_eq (c ∷ s) (d ∷ t) = c == d && text_eq s t

pub text_eq_iff : (s t : Text) → (text_eq s t ≡ true) ↔ (s ≡ t)
unfolding text_eq
text_eq_iff [] [] = (λ _. refl, λ _. refl)
text_eq_iff [] (d ∷ t) = (λ h. cc, λ h. cc)
text_eq_iff (c ∷ s) [] = (λ h. cc, λ h. cc)
text_eq_iff (c ∷ s) (d ∷ t) =
    (λ h. ground (arith, text_eq_iff s t), λ h. ground (arith, text_eq_iff s t))

pub text_eq_refl : (s : Text) → text_eq s s ≡ true
text_eq_refl s = (text_eq_iff s s).1 refl

-- `" ".repeat(n)` and `s.repeat(n)`.
unfoldable pub repeat : Text → ℕ → Text
repeat s zero = []
repeat s (suc n) = s ++ repeat s n

pub length-repeat : (s : Text) (n : ℕ) → length s ≡ 1 → length (repeat s n) ≡ n
unfolding repeat
length-repeat s zero h = refl
length-repeat s (suc n) h = omega (arith, length-append s (repeat s n), length-repeat s n h)

unfoldable pub spaces : ℕ → Text
spaces n = repeat (codes " ") n

pub length-spaces : (n : ℕ) → length (spaces n) ≡ n
unfolding spaces
length-spaces n = length-repeat (codes " ") n refl

unfoldable pub is_empty_text : Text → Bool
is_empty_text [] = true
is_empty_text (c ∷ s) = false

-- `char::is_whitespace`: the Unicode property White_Space.
unfoldable pub is_whitespace : ℕ → Bool
is_whitespace c =
    (leb 9 c && leb c 13)
    || c == 32
    || c == 0x85
    || c == 0xa0
    || c == 0x1680
    || (leb 0x2000 c && leb c 0x200a)
    || c == 0x2028
    || c == 0x2029
    || c == 0x202f
    || c == 0x205f
    || c == 0x3000

-- `str::trim_end`
unfoldable pub trim_end : Text → Text
trim_end [] = []
trim_end (c ∷ s) =
    let rest = trim_end s in
    elim rest [ [] ↦ if is_whitespace c then [] else c ∷ [] | d ∷ r ↦ c ∷ d ∷ r ]

-- `str::trim_start` and `str::trim`
unfoldable pub trim_start : Text → Text
trim_start [] = []
trim_start (c ∷ s) = if is_whitespace c then trim_start s else c ∷ s

unfoldable pub trim : Text → Text
unfolding trim_start trim_end
trim s = trim_end (trim_start s)

trim_end-all : (trail : Text) → all is_whitespace trail ≡ true → trim_end trail ≡ []
unfolding trim_end
trim_end-all [] h = refl
trim_end-all (c ∷ s) h = ground (arith, trim_end-all s)

trim_end-append :
    (s trail : Text)
    → all (λ c. not (is_whitespace c)) s ≡ true
    → all is_whitespace trail ≡ true
    → trim_end (s ++ trail) ≡ s
unfolding trim_end
trim_end-append [] trail h t = trim_end-all trail t
trim_end-append (c ∷ []) trail h t = ground (arith, trim_end-append [] trail)
trim_end-append (c ∷ d ∷ s) trail h t = ground (arith, trim_end-append (d ∷ s) trail)

trim_start-append :
    (lead s : Text) → all is_whitespace lead ≡ true → trim_start (lead ++ s) ≡ trim_start s
unfolding trim_start
trim_start-append [] s h = refl
trim_start-append (c ∷ lead) s h = ground (arith, trim_start-append lead s)

trim_start-all : (trail : Text) → all is_whitespace trail ≡ true → trim_start trail ≡ []
unfolding trim_start
trim_start-all [] h = refl
trim_start-all (c ∷ s) h = ground (arith, trim_start-all s)

trim_start_stops : (c : ℕ) (s : Text) → is_whitespace c ≡ false → trim_start (c ∷ s) ≡ c ∷ s
unfolding trim_start
trim_start_stops c s h = rw h refl

-- White space around a text without any is what `trim` takes off.
pub trim-append :
    (lead s trail : Text)
    → all is_whitespace lead ≡ true
    → all (λ c. not (is_whitespace c)) s ≡ true
    → all is_whitespace trail ≡ true
    → trim (lead ++ (s ++ trail)) ≡ s
unfolding trim trim_start
trim-append lead [] trail l h t =
    ap trim_end (trim_start-append lead trail l) ∙ ap trim_end (trim_start-all trail t)
trim-append lead (c ∷ s) trail l h t =
    ap trim_end (trim_start-append lead (c ∷ (s ++ trail)) l)
    ∙ ap trim_end (trim_start_stops c (s ++ trail) (ground arith))
    ∙ trim_end-append (c ∷ s) trail h t
