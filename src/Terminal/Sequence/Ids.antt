-- ===== src/Terminal/Sequence/Ids.antt =====
-- The ids that `TaskSequenceBuilder` gives to the stages.
use mathlib.Core.List.{append-nil}
use knot_ops.Prelude.{
  ℕ, zero, suc, ◌≤◌, ◌<◌, false, not, ◌||◌, ltb, is_empty, Text, decimal_injective, Option, List,
  [], ◌∷◌, ◌++◌, ◌≡◌, refl, ap, ◌∙◌, ◌⊎◌, inl, inr, arith, contains, length, drop, text_eq_iff,
}
use native.Mathlib.Numerals.{add-one}
use knot_ops.Terminal.Builder.{TaskBuilder, BuilderStep, stage_step, group_step}
use knot_ops.Terminal.Builder
use knot_ops.Terminal.Builder.Steps.{step_ids}
use knot_ops.Terminal.Sequence.Order.{Distinct}
use knot_ops.Terminal.Sequence.{TaskSequenceBuilder, new_builder, stage_id, with_stage, with_group}

-- The ids of the first stages of a sequence.
unfoldable pub first_ids : ℕ → List Text
first_ids zero = []
first_ids (suc n) = first_ids n ++ (stage_id n ∷ [])

pub some_or_nil : (l : List Text) → (0 < length l) ⊎ (l ≡ [])
some_or_nil [] = inr refl
some_or_nil (x ∷ l) = inl (omega arith)

append_one-empty : (l : List Text) (x : Text) → is_empty (l ++ (x ∷ [])) ≡ false
append_one-empty [] x = refl
append_one-empty (y ∷ l) x = refl

-- There is a first stage unless there are none.
pub first_ids_empty : (n : ℕ) → not (is_empty (first_ids n)) ≡ ltb 0 n
unfolding first_ids
first_ids_empty zero = refl
first_ids_empty (suc n) = rw (append_one-empty (first_ids n) (stage_id n)) (ground arith)

pub stage_id_injective : (m n : ℕ) → stage_id m ≡ stage_id n → m ≡ n
unfolding stage_id
stage_id_injective m n e = decimal_injective m n (ap (drop 6) e)

contains-append :
    (xs ys : List Text) (k : Text) → contains (xs ++ ys) k ≡ (contains xs k || contains ys k)
unfolding contains
contains-append [] ys k = refl
contains-append (x ∷ xs) ys k = ground (arith, contains-append xs ys k)

first_ids_lack : (n m : ℕ) → n ≤ m → contains (first_ids n) (stage_id m) ≡ false
unfolding first_ids contains
first_ids_lack zero m h = refl
first_ids_lack (suc n) m h = ground (
  arith,
  contains-append (first_ids n) (stage_id n ∷ []) (stage_id m),
  first_ids_lack n m,
  text_eq_iff (stage_id n) (stage_id m),
  stage_id_injective n m,
)

Distinct-append :
    (l : List Text) (x : Text) → Distinct l → contains l x ≡ false → Distinct (l ++ (x ∷ []))
unfolding contains
Distinct-append [] x d h = (refl, tt)
Distinct-append (y ∷ l) x d h = (
  ground (arith, contains-append l (x ∷ []) y, text_eq_iff y x, text_eq_iff x y),
  Distinct-append l x d.1 (ground arith),
)

-- The generated ids are pairwise distinct.
pub first_ids-Distinct : (n : ℕ) → Distinct (first_ids n)
unfolding first_ids
first_ids-Distinct zero = tt
first_ids-Distinct (suc n) =
    Distinct-append (first_ids n) (stage_id n) (first_ids-Distinct n)
      (first_ids_lack n n (omega arith))

-- The stages of the builder bear the first ids, in order.
abbrev pub IsNumbered : TaskSequenceBuilder → Type 0
IsNumbered b = step_ids b.inner.steps ≡ first_ids b.stage_counter

step_ids-append : (xs ys : List BuilderStep) → step_ids (xs ++ ys) ≡ step_ids xs ++ step_ids ys
unfolding step_ids
step_ids-append [] ys = refl
step_ids-append (stage_step id name auto_run ∷ xs) ys = ap (λ l. id ∷ l) (step_ids-append xs ys)
step_ids-append (group_step header ∷ xs) ys = step_ids-append xs ys

pub new-IsNumbered : (b : TaskBuilder) → b.steps ≡ [] → IsNumbered (new_builder b)
unfolding new_builder step_ids first_ids
new-IsNumbered b e = ground arith

-- The calls of a builder's chain.
pub data ChainStep : Type 0 where
  staged : Text → ChainStep
  grouped : Option Text → ChainStep

unfoldable pub chain : List ChainStep → TaskSequenceBuilder → TaskSequenceBuilder
chain [] b = b
chain (staged name ∷ rest) b = chain rest (with_stage name b)
chain (grouped header ∷ rest) b = chain rest (with_group header b)

with_stage-IsNumbered :
    (name : Text) (b : TaskSequenceBuilder) → IsNumbered b → IsNumbered (with_stage name b)
unfolding with_stage Builder.with_stage step_ids first_ids
with_stage-IsNumbered name b h =
    rw
      (
        step_ids-append b.inner.steps (stage_step (stage_id b.stage_counter) name false ∷ []),
        add-one,
        h,
      )
      refl

with_group-IsNumbered :
    (header : Option Text) (b : TaskSequenceBuilder)
    → IsNumbered b
    → IsNumbered (with_group header b)
unfolding with_group Builder.with_group step_ids
with_group-IsNumbered header b h =
    rw (step_ids-append b.inner.steps (group_step header ∷ [])) (append-nil _ ∙ h)

pub chain-IsNumbered :
    (cs : List ChainStep) (b : TaskSequenceBuilder) → IsNumbered b → IsNumbered (chain cs b)
unfolding chain
chain-IsNumbered [] b h = h
chain-IsNumbered (staged name ∷ rest) b h =
    chain-IsNumbered rest (with_stage name b) (with_stage-IsNumbered name b h)
chain-IsNumbered (grouped header ∷ rest) b h =
    chain-IsNumbered rest (with_group header b) (with_group-IsNumbered header b h)
