-- ===== src/Terminal/Task/Sweep.antt =====
-- Loops over stages of the abstract machine, as single changes of its sets.
use mathlib.Core.Path.{fun_ext}
use knot_ops.Prelude.{
  Bool, true, false, ◌||◌, Text, List, [], ◌∷◌, ◌≡◌, refl, subst, ap, sym, ◌∙◌, ◌⊎◌, inl, inr,
  arith, all, any, contains, text_eq_iff, Bool-cases, if_true, if_false,
}
use knot_ops.Terminal.Task.Spec.{
  TaskView, settled, with_all, without_all, marked_running, marked_finished, marked_failed, one,
  completed,
}

unfoldable pub sweep : (Text → TaskView → TaskView) → List Text → TaskView → TaskView
sweep mark [] v = v
sweep mark (id ∷ rest) v = sweep mark rest (one mark id v)

pub view_ext :
    (v v' : TaskView)
    → v.stages ≡ v'.stages
    → ((k : Text) → v.finished k ≡ v'.finished k)
    → ((k : Text) → v.failed k ≡ v'.failed k)
    → v.ended ≡ v'.ended
    → v ≡ v'
view_ext v v' s f g e =
    let f' = fun_ext f in
    let g' = fun_ext g in λ i. record { stages = s i; finished = f' i; failed = g' i; ended = e i }

all_of :
    (f : Text → Bool) (l : List Text)
    → ((k : Text) → contains l k ≡ true → f k ≡ true)
    → all f l ≡ true
unfolding contains
all_of f [] h = refl
all_of f (x ∷ l) h = ground (arith, h x, text_eq_iff x x, all_of f l (λ k m. h k (ground arith)))

of_all :
    (f : Text → Bool) (l : List Text) (k : Text) → all f l ≡ true → contains l k ≡ true → f k ≡ true
unfolding contains
of_all f [] k h m = cc
of_all f (x ∷ l) k h m = ground (arith, text_eq_iff x k, of_all f l k)

none_of : (f : Text → Bool) (l : List Text) → ((k : Text) → f k ≡ false) → any f l ≡ false
none_of f [] h = refl
none_of f (x ∷ l) h = ground (arith, h x, none_of f l h)

some_of :
    (f : Text → Bool) (l : List Text) (k : Text) → contains l k ≡ true → f k ≡ true → any f l ≡ true
unfolding contains
some_of f [] k m h = cc
some_of f (x ∷ l) k m h = ground (arith, text_eq_iff x k, some_of f l k)

not_all :
    (f : Text → Bool) (l : List Text) (k : Text)
    → contains l k ≡ true
    → f k ≡ false
    → all f l ≡ false
unfolding contains
not_all f [] k m h = cc
not_all f (x ∷ l) k m h = ground (arith, text_eq_iff x k, not_all f l k)

-- Without stages nothing happens.
sweep_stageless :
    (mark : Text → TaskView → TaskView) (todo : List Text) (v : TaskView)
    → v.stages ≡ []
    → sweep mark todo v ≡ v
unfolding sweep one contains
sweep_stageless mark [] v e = refl
sweep_stageless mark (id ∷ rest) v e =
    ap (sweep mark rest) (if_false _ _ (ap (λ l. contains l id) e)) ∙ sweep_stageless mark rest v e

abbrev pub Calm : TaskView → Type 0
Calm v = (k : Text) → v.failed k ≡ false

abbrev pub Inside : List Text → TaskView → Type 0
Inside todo v = (k : Text) → contains todo k ≡ true → contains v.stages k ≡ true

inside_rest :
    (id : Text) (rest stages : List Text)
    → ((k : Text) → contains (id ∷ rest) k ≡ true → contains stages k ≡ true)
    → (contains stages id ≡ true) × ((k : Text) → contains rest k ≡ true → contains stages k ≡ true)
unfolding contains
inside_rest id rest stages h = (h id (ground (arith, text_eq_iff id id)), λ k m. h k (ground arith))

-- One step of each loop.
run_step :
    (id : Text) (v : TaskView)
    → v.ended ≡ false
    → Calm v
    → contains v.stages id ≡ true
    → one marked_running id v ≡ marked_running id v
unfolding one settled marked_running
run_step id v live calm known =
    let v1 = marked_running id v in
    let unfinished : v1.finished id ≡ false = ground (arith, text_eq_iff id id) in
    if_true _ _ known
    ∙ if_false _ _ live
    ∙ if_false _ _ (none_of v1.failed v.stages (λ k. ground (arith, calm k)))
    ∙ if_false _ _ (not_all v1.finished v.stages id known unfinished)

fail_step :
    (id : Text) (v : TaskView)
    → contains v.stages id ≡ true
    → one marked_failed id v ≡ record (marked_failed id v) { ended = true }
unfolding one settled marked_failed
fail_step id v known =
    let v1 = marked_failed id v in
    let fails : any v1.failed v.stages ≡ true =
      some_of v1.failed v.stages id known (ground (arith, text_eq_iff id id)) in
    if_true _ _ known ∙ elim (Bool-cases v.ended) [
      | inl over ↦ if_true _ _ over ∙ ap (λ b. record v1 { ended = b }) over
      | inr live ↦ if_false _ _ live ∙ if_true _ _ fails
    ]

finish_step :
    (id : Text) (v : TaskView)
    → v.ended ≡ false
    → Calm v
    → contains v.stages id ≡ true
    → let v1 = marked_finished id v in
      ((all v1.finished v.stages ≡ true)
        × (one marked_finished id v ≡ record v1 { stages = []; ended = true }))
      ⊎ ((all v1.finished v.stages ≡ false) × (one marked_finished id v ≡ v1))
unfolding one settled marked_finished
finish_step id v live calm known =
    let v1 = marked_finished id v in
    let goes_on =
      if_true _ _ known
      ∙ if_false _ _ live
      ∙ if_false _ _ (none_of v1.failed v.stages (λ k. ground (arith, calm k))) in
    elim (Bool-cases (all v1.finished v.stages)) [
      | inl done ↦ inl (done, goes_on ∙ if_true _ _ done)
      | inr open_ ↦ inr (open_, goes_on ∙ if_false _ _ open_)
    ]

pub sweep_running :
    (todo : List Text) (v : TaskView)
    → v.ended ≡ false
    → Calm v
    → Inside todo v
    → sweep marked_running todo v
      ≡ record v { finished = without_all todo v.finished; failed = without_all todo v.failed }
unfolding sweep contains marked_running
sweep_running [] v live calm inside = view_ext v _ refl (λ k. ground arith) (λ k. ground arith) refl
sweep_running (id ∷ rest) v live calm inside =
    let (known, more) = inside_rest id rest v.stages inside in
    ap (sweep marked_running rest) (run_step id v live calm known)
    ∙ sweep_running rest (marked_running id v) live (λ k. ground (arith, calm k)) more
    ∙ view_ext _ _ refl (λ k. ground arith) (λ k. ground arith) refl

-- What failures of these stages make of the sets, also of a task that has ended.
abbrev pub Fallen : List Text → TaskView → TaskView → Type 0
Fallen todo v v' =
    (v'.stages ≡ v.stages)
    × ((k : Text) → v'.finished k ≡ without_all todo v.finished k)
    × ((k : Text) → v'.failed k ≡ with_all todo v.failed k)

pub sweep_failed :
    (todo : List Text) (v : TaskView) → Inside todo v → Fallen todo v (sweep marked_failed todo v)
unfolding sweep contains marked_failed
sweep_failed [] v inside = (refl, λ k. ground arith, λ k. ground arith)
sweep_failed (id ∷ rest) v inside =
    let (known, more) = inside_rest id rest v.stages inside in
    let v1 = record (marked_failed id v) { ended = true } in
    let (same, fin, fails) = sweep_failed rest v1 more in
    subst (λ x. Fallen (id ∷ rest) v (sweep marked_failed rest x)) (sym (fail_step id v known))
      (same, λ k. fin k ∙ ground arith, λ k. fails k ∙ ground arith)

-- Every stage is finished or still to come.
abbrev pub Covered : List Text → TaskView → Type 0
Covered todo v = (k : Text) → contains v.stages k ≡ true → (v.finished k || contains todo k) ≡ true

pub sweep_finished :
    (todo : List Text) (v : TaskView)
    → v.ended ≡ false
    → Calm v
    → Inside todo v
    → Covered todo v
    → all v.finished v.stages ≡ false
    → sweep marked_finished todo v ≡ completed v
unfolding sweep contains marked_finished completed
sweep_finished [] v live calm inside covered open_ =
    let done : all v.finished v.stages ≡ true =
      all_of v.finished v.stages (λ k m. ground (arith, covered k m)) in
    absurd (ground arith)
sweep_finished (id ∷ rest) v live calm inside covered open_ =
    let (known, more) = inside_rest id rest v.stages inside in
    let v1 = marked_finished id v in
    elim (finish_step id v live calm known) [
      | inl (done, ends) ↦
          ap (sweep marked_finished rest) ends
          ∙ sweep_stageless marked_finished rest _ refl
          ∙ view_ext _ _ refl
              (λ k. ground (arith, text_eq_iff id k, of_all v1.finished v.stages k done))
              (λ k. ground (arith, calm k)) refl
      | inr (later, goes_on) ↦
          ap (sweep marked_finished rest) goes_on
          ∙ sweep_finished rest v1 live (λ k. ground (arith, calm k)) more
              (λ k m. ground (arith, covered k m)) later
          ∙ view_ext _ _ refl (λ k. ground (arith, text_eq_iff id k)) (λ k. ground (arith, calm k))
              refl
    ]
