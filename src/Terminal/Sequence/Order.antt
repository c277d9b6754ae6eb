-- ===== src/Terminal/Sequence/Order.antt =====
-- Lists of distinct identifiers, read one after another.
use knot_ops.Prelude.{
  ℕ, zero, suc, ◌≤◌, ◌<◌, true, false, not, ◌||◌, Text, none, some, List, [], ◌∷◌, ◌≡◌, refl, inl,
  inr, arith, contains, length, get_elem?, take, drop, all, contains-all, all-contains, text_eq,
  text_eq_iff, ltb, Bool-cases,
}

abbrev pub Distinct : List Text → Type 0
Distinct [] = Unit {0}
Distinct (x ∷ xs) = (contains xs x ≡ false) × Distinct xs

pub contains-get_elem? :
    (l : List Text) (i : ℕ) {id : Text} → get_elem? l i ≡ some id → contains l id ≡ true
unfolding contains
contains-get_elem? [] i e = cc
contains-get_elem? (x ∷ l) zero {id} e = ground (arith, text_eq_iff x id)
contains-get_elem? (x ∷ l) (suc i) {id} e = ground (arith, contains-get_elem? l i e)

pub get_elem?-lt : (l : List Text) (i : ℕ) {id : Text} → get_elem? l i ≡ some id → i < length l
get_elem?-lt [] i e = cc
get_elem?-lt (x ∷ l) zero e = omega arith
get_elem?-lt (x ∷ l) (suc i) e = omega (arith, get_elem?-lt l i e)

pub get_elem?-some :
    (l : List Text) (i : ℕ) → i < length l → (id : Text) × (get_elem? l i ≡ some id)
get_elem?-some [] i h = elim h [ ]
get_elem?-some (x ∷ l) zero h = (x, refl)
get_elem?-some (x ∷ l) (suc i) h = get_elem?-some l i (omega arith)

pub get_elem?-none : (l : List Text) (i : ℕ) → length l ≤ i → get_elem? l i ≡ none
get_elem?-none [] i h = refl
get_elem?-none (x ∷ l) zero h = absurd (omega arith)
get_elem?-none (x ∷ l) (suc i) h = get_elem?-none l i (omega arith)

-- One more entry is taken.
pub contains-take-suc :
    (l : List Text) (i : ℕ) {id : Text} (k : Text)
    → get_elem? l i ≡ some id
    → contains (take (suc i) l) k ≡ (contains (take i l) k || text_eq id k)
unfolding contains
contains-take-suc [] i k e = cc
contains-take-suc (x ∷ l) zero k e = ground arith
contains-take-suc (x ∷ l) (suc i) k e = ground (arith, contains-take-suc l i k e)

pub contains-take_mono :
    (l : List Text) (i : ℕ) (k : Text) → contains (take i l) k ≡ true → contains l k ≡ true
unfolding contains
contains-take_mono l zero k h = cc
contains-take_mono [] (suc i) k h = h
contains-take_mono (x ∷ l) (suc i) k h = ground (arith, contains-take_mono l i k)

-- An entry is not among those before it.
pub take_lacks :
    (l : List Text) (i : ℕ) {id : Text}
    → Distinct l
    → get_elem? l i ≡ some id
    → contains (take i l) id ≡ false
unfolding contains
take_lacks [] i d e = cc
take_lacks (x ∷ l) zero d e = refl
take_lacks (x ∷ l) (suc i) {id} d e =
    ground (arith, take_lacks l i d.1 e, contains-get_elem? l i e, text_eq_iff x id)

pub take_all : (l : List Text) (n : ℕ) → length l ≤ n → take n l ≡ l
take_all [] zero h = refl
take_all [] (suc n) h = refl
take_all (x ∷ l) zero h = absurd (omega arith)
take_all (x ∷ l) (suc n) h = ground (arith, take_all l n)

pub drop_all : (l : List Text) (n : ℕ) → length l ≤ n → drop n l ≡ []
drop_all [] zero h = refl
drop_all [] (suc n) h = refl
drop_all (x ∷ l) zero h = absurd (omega arith)
drop_all (x ∷ l) (suc n) h = drop_all l n (omega arith)

-- Each entry is before a position or from it on, and not both.
pub take_or_drop :
    (l : List Text) (n : ℕ) (k : Text)
    → contains l k ≡ (contains (take n l) k || contains (drop n l) k)
unfolding contains
take_or_drop l zero k = refl
take_or_drop [] (suc n) k = refl
take_or_drop (x ∷ l) (suc n) k = ground (arith, take_or_drop l n k)

some_left :
    (l : List Text) (n : ℕ) (done : List Text)
    → Distinct l
    → ((k : Text) → contains done k ≡ contains (take n l) k)
    → n < length l
    → all (contains done) l ≡ false
some_left l n done d same h = elim (Bool-cases (all (contains done) l)) [
  | inl whole ↦
      let (id, e) = get_elem?-some l n h in
      ground (
        arith,
        contains-all done l id whole (contains-get_elem? l n e),
        same id,
        take_lacks l n d e,
      )
  | inr part ↦ part
]

-- A set that holds the first `n` of a list of distinct entries holds all of them exactly if there are
-- no more than `n`.
pub all_taken :
    (l : List Text) (n : ℕ) (done : List Text)
    → Distinct l
    → ((k : Text) → contains done k ≡ contains (take n l) k)
    → all (contains done) l ≡ not (ltb n (length l))
all_taken l n done d same = elim (Bool-cases (ltb n (length l))) [
  | inl more ↦ ground (arith, some_left l n done d same (ground arith))
  | inr enough ↦
      ground (arith, all-contains done l (λ k m. rw (same k, take_all l n (ground arith)) m))
]

-- What is left from a position on, and from the next one on.
pub contains-drop :
    (l : List Text) (i : ℕ) {id : Text} (k : Text)
    → get_elem? l i ≡ some id
    → contains (drop i l) k ≡ (text_eq id k || contains (drop (suc i) l) k)
unfolding contains
contains-drop [] i k e = cc
contains-drop (x ∷ l) zero k e = ground arith
contains-drop (x ∷ l) (suc i) k e = contains-drop l i k e

pub drop_lacks :
    (l : List Text) (i : ℕ) {id : Text}
    → Distinct l
    → get_elem? l i ≡ some id
    → contains (drop (suc i) l) id ≡ false
drop_lacks [] i d e = cc
drop_lacks (x ∷ l) zero d e = ground arith
drop_lacks (x ∷ l) (suc i) d e = drop_lacks l i d.1 e
