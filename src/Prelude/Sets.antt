-- ===== src/Prelude/Sets.antt =====
-- `HashSet<Cow<str>>` as a list without repetitions, seen only through membership.
use mathlib.Core.Path.{◌≡◌, refl}
use mathlib.Core.Bool.{Bool, true, false, ◌||◌}
use mathlib.Core.Logic.{inl, inr}
use mathlib.Core.List.{List, [], ◌∷◌}
use native.Mathlib.Omega.{arith}
use knot_ops.Prelude.Lists.{all}
use knot_ops.Prelude.Tests.{if◌then◌else◌, Bool-cases}
use knot_ops.Prelude.Texts.{Text, text_eq, text_eq_iff}

unfoldable pub contains : List Text → Text → Bool
contains [] k = false
contains (x ∷ xs) k = text_eq x k || contains xs k

unfoldable pub insert : Text → List Text → List Text
insert k xs = if contains xs k then xs else k ∷ xs

unfoldable pub remove : Text → List Text → List Text
remove k [] = []
remove k (x ∷ xs) = let rest = remove k xs in if text_eq x k then rest else x ∷ rest

pub contains-insert :
    (k j : Text) (xs : List Text) → contains (insert k xs) j ≡ (text_eq k j || contains xs j)
unfolding insert contains
contains-insert k j xs = elim (Bool-cases (contains xs k)) [
  | inl old ↦ elim (Bool-cases (text_eq k j)) [
    | inl same ↦ ground (arith, (text_eq_iff k j).0 same)
    | inr differ ↦ ground arith
  ]
  | inr new ↦ ground arith
]

pub contains-remove :
    (k j : Text) (xs : List Text)
    → contains (remove k xs) j ≡ (if text_eq k j then false else contains xs j)
unfolding remove contains
contains-remove k j [] = ground arith
contains-remove k j (x ∷ xs) =
    ground (arith, contains-remove k j xs, text_eq_iff k j, text_eq_iff x k, text_eq_iff x j)

or_right : (a : Bool) {b : Bool} → b ≡ true → (a || b) ≡ true
or_right true h = refl
or_right false h = h

-- A set covers a list exactly if it contains each member.
pub all-contains :
    (f l : List Text)
    → ((k : Text) → contains l k ≡ true → contains f k ≡ true)
    → all (contains f) l ≡ true
unfolding contains
all-contains f [] h = refl
all-contains f (x ∷ l) h =
    ground (arith, h x, text_eq_iff x x, all-contains f l (λ k m. h k (or_right (text_eq x k) m)))

pub contains-all :
    (f l : List Text) (k : Text)
    → all (contains f) l ≡ true
    → contains l k ≡ true
    → contains f k ≡ true
unfolding contains
contains-all f [] k h m = cc
contains-all f (x ∷ l) k h m = ground (arith, text_eq_iff x k, contains-all f l k)
