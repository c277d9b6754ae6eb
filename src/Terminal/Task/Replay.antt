-- ===== src/Terminal/Task/Replay.antt =====
-- Every run of operations on a task, as a replay on the abstract machine of Task/Spec.
use knot_ops.Prelude.{
  Bool, true, false, not, ◌&&◌, ◌||◌, Text, Option, List, [], ◌∷◌, ◌≡◌, refl, subst, ap, sym, ◌∙◌,
  ◌⊎◌, inl, inr, arith, all, is_empty, contains, Bool-cases, if_true, if_false,
}
use knot_ops.Terminal.Console.{Console, Screen}
use knot_ops.Terminal.Renderer.{TaskRenderer}
use knot_ops.Terminal.Report.{ErrorReport}
use knot_ops.Terminal.Task.Stages.{TaskEntry, ids}
use knot_ops.Terminal.Task.State.{
  Task, Live, new, set_completed, set_failed_and_clear, clear_children,
}
use knot_ops.Terminal.Task.Ops.{
  mark_running, mark_finished, mark_failed, run_by_id, ok_by_id, fail_by_id, skip_by_id, fail_each,
  run_each, perform_ok, perform_fail, perform_run, perform_skip,
}
use knot_ops.Terminal.Task.Outcome.{
  Outcome, run_by_id-Outcome, ok_by_id-Outcome, fail_by_id-Outcome, skip_by_id-Outcome,
}
use knot_ops.Terminal.Task.Inv.{
  IsConsistent, Disjoint, Outcome-IsConsistent, new-IsConsistent, mark_running-Disjoint,
  mark_finished-Disjoint, mark_failed-Disjoint,
}
use knot_ops.Terminal.Task.Bulk.{each, ok_each-each, skip_each-each}
use knot_ops.Terminal.Task.Trace.{
  TaskOp, run_one, ok_one, fail_one, skip_one, run_all, ok_all, fail_all, skip_all, apply, play,
  apply-IsConsistent,
}
use knot_ops.Terminal.Task.Spec.{
  TaskView, fresh, marked_running, marked_finished, marked_failed, with_all, without_all, completed,
  step, replay,
}
use knot_ops.Terminal.Task.Refine.{
  view, IsMark, mark_running-IsMark, mark_finished-IsMark, mark_failed-IsMark, Outcome-one,
}
use knot_ops.Terminal.Task.Sweep.{
  sweep, view_ext, Calm, Fallen, sweep_running, sweep_failed, sweep_finished,
}

abbrev view_of : Live → TaskView
view_of l = view l.0

-- A loop of an operation on one stage is a loop of the abstract machine.
each-view :
    (f : Text → Live → Bool × Live) (mark : Text → Task → Task)
    (marked : Text → TaskView → TaskView)
    → IsMark mark marked
    → ((id : Text) (t : Task) → Disjoint t → Disjoint (mark id t))
    → ((id : Text) (l : Live) → Outcome (mark id) id l (f id l))
    → (todo : List Text) (l : Live) → IsConsistent l.0
    → view (each f todo l).0 ≡ sweep marked todo (view l.0)
unfolding each sweep
each-view f mark marked m keeps outcome [] l v = refl
each-view f mark marked m keeps outcome (id ∷ rest) l v =
    each-view f mark marked m keeps outcome rest (f id l).1
      (Outcome-IsConsistent (mark id) id l (f id l) (keeps id l.0 v.disjoint) (outcome id l) v)
    ∙ ap (sweep marked rest) (Outcome-one mark marked id l (f id l) m v (outcome id l))

each_none :
    (f : Text → Live → Bool × Live) (todo : List Text) (l : Live)
    → is_empty todo ≡ true
    → each f todo l ≡ l
unfolding each
each_none f [] l h = refl
each_none f (id ∷ rest) l h = cc

Calm-view : (t : Task) → IsConsistent t → t.is_finished ≡ false → Calm (view t)
unfolding contains
Calm-view t v live k = ap (λ l. contains l k) (v.calm live)

or_true : (b : Bool) → (b || true) ≡ true
or_true b = ground arith

or_false : (b : Bool) → (b || false) ≡ b
or_false b = ground arith

and_true : (b : Bool) → (b && true) ≡ b
and_true b = ground arith

module _ (c : Console) where
  run_each-each :
      (msg : Option Text) (todo : List Text) (l : Live)
      → run_each c todo msg l ≡ each (λ id l'. run_by_id c id msg l') todo l
  unfolding run_each each
  run_each-each msg [] l = refl
  run_each-each msg (id ∷ rest) l = run_each-each msg rest (run_by_id c id msg l).1

  fail_each-each :
      (report : ErrorReport) (todo : List Text) (l : Live)
      → fail_each c todo report l ≡ each (λ id l'. fail_by_id c id report l') todo l
  unfolding fail_each each
  fail_each-each report [] l = refl
  fail_each-each report (id ∷ rest) l = fail_each-each report rest (fail_by_id c id report l).1

  run_all-view :
      (msg : Option Text) (l : Live)
      → IsConsistent l.0
      → l.0.is_finished ≡ false
      → view (run_each c (ids l.0.entries) msg l).0 ≡ record (view l.0) {
        finished = without_all (ids l.0.entries) (contains l.0.finished_stages);
        failed = without_all (ids l.0.entries) (contains l.0.failed_stages);
      }
  run_all-view msg l v live =
      ap view_of (run_each-each msg (ids l.0.entries) l)
      ∙ each-view (λ id l'. run_by_id c id msg l') mark_running marked_running mark_running-IsMark
          mark_running-Disjoint (λ id l'. run_by_id-Outcome c id l'.0 l'.1 msg) (ids l.0.entries) l
          v
      ∙ sweep_running (ids l.0.entries) (view l.0) live (Calm-view l.0 v live) (λ k m. m)

  -- The loops of `ok` and `skip`.
  finish_all-view :
      (f : Text → Live → Bool × Live)
      → ((id : Text) (l : Live) → Outcome (mark_finished id) id l (f id l))
      → (l : Live) → IsConsistent l.0
      → l.0.is_finished ≡ false
      → is_empty (ids l.0.entries) ≡ false
      → view (each f (ids l.0.entries) l).0 ≡ completed (view l.0)
  finish_all-view f outcome l v live some_stage =
      each-view f mark_finished marked_finished mark_finished-IsMark mark_finished-Disjoint outcome
        (ids l.0.entries) l v
      ∙ sweep_finished (ids l.0.entries) (view l.0) live (Calm-view l.0 v live) (λ k m. m)
          (λ k m. rw m (or_true (contains l.0.finished_stages k))) (still_open (v.pending live))
    where
      still_open :
          (ids l.0.entries ≡ []) ⊎ (all (contains l.0.finished_stages) (ids l.0.entries) ≡ false)
          → all (contains l.0.finished_stages) (ids l.0.entries) ≡ false
      still_open (inl none_left) = absurd (ground (arith, none_left, some_stage))
      still_open (inr open_) = open_

  set_completed-view :
      (msg : Text) (l : Live)
      → l.0.is_finished ≡ false
      → ids l.0.entries ≡ []
      → view (set_completed c msg l).0 ≡ completed (view l.0)
  unfolding set_completed clear_children completed ids contains
  set_completed-view msg l live none_left =
      ap view_of (if_false _ _ live)
      ∙ view_ext _ _ refl
          (λ k.
            sym (or_false _)
            ∙ ap (λ s. contains l.0.finished_stages k || contains s k) (sym none_left))
          (λ k.
            sym (and_true _)
            ∙ ap (λ s. contains l.0.failed_stages k && not (contains s k)) (sym none_left))
          refl

  fail_all-view :
      (report : ErrorReport) (l : Live)
      → IsConsistent l.0
      → view (set_failed_and_clear c report (fail_each c (ids l.0.entries) report l)).0 ≡ record {
        stages = [];
        finished = without_all (ids l.0.entries) (contains l.0.finished_stages);
        failed = with_all (ids l.0.entries) (contains l.0.failed_stages);
        ended = true;
      }
  unfolding set_failed_and_clear clear_children ids
  fail_all-view report l v =
      let fallen =
        subst (λ x. Fallen (ids l.0.entries) (view l.0) x)
          (sym (
            ap view_of (fail_each-each report (ids l.0.entries) l)
            ∙ each-view (λ id l'. fail_by_id c id report l') mark_failed marked_failed
                mark_failed-IsMark mark_failed-Disjoint
                (λ id l'. fail_by_id-Outcome c id l'.0 l'.1 report) (ids l.0.entries) l v))
          (sweep_failed (ids l.0.entries) (view l.0) (λ k m. m)) in
      view_ext _ _ refl fallen.1 fallen.2 refl

  -- Each operation is a step.
  pub apply-step :
      (op : TaskOp) (l : Live) → IsConsistent l.0 → view (apply c op l).0 ≡ step op (view l.0)
  unfolding apply step perform_run perform_ok perform_fail perform_skip
  apply-step (run_one id msg) l v =
      Outcome-one mark_running marked_running id l _ mark_running-IsMark v
        (run_by_id-Outcome c id l.0 l.1 msg)
  apply-step (ok_one id msg) l v =
      Outcome-one mark_finished marked_finished id l _ mark_finished-IsMark v
        (ok_by_id-Outcome c id l.0 l.1 msg)
  apply-step (fail_one id report) l v =
      Outcome-one mark_failed marked_failed id l _ mark_failed-IsMark v
        (fail_by_id-Outcome c id l.0 l.1 report)
  apply-step (skip_one id msg) l v =
      Outcome-one mark_finished marked_finished id l _ mark_finished-IsMark v
        (skip_by_id-Outcome c id l.0 l.1 msg)
  apply-step (run_all msg) l v = elim (Bool-cases l.0.is_finished) [
    | inl over ↦ ap view_of (if_true _ _ over) ∙ sym (if_true _ _ over)
    | inr live ↦
        ap view_of (if_false _ _ live) ∙ run_all-view msg l v live ∙ sym (if_false _ _ live)
  ]
  apply-step (ok_all msg) l v = elim (Bool-cases l.0.is_finished) [
    | inl over ↦ ap view_of (if_true _ _ over) ∙ sym (if_true _ _ over)
    | inr live ↦
        ap view_of (if_false _ _ live)
        ∙ elim (Bool-cases (is_empty (ids l.0.entries))) [
          | inl none_left ↦
              ap view_of (if_true _ _ none_left)
              ∙ set_completed-view msg l live (ground (arith, none_left))
          | inr some_stage ↦
              ap view_of (if_false _ _ some_stage ∙ ok_each-each c msg (ids l.0.entries) l)
              ∙ finish_all-view (λ id l'. ok_by_id c id msg l')
                  (λ id l'. ok_by_id-Outcome c id l'.0 l'.1 msg) l v live some_stage
        ]
        ∙ sym (if_false _ _ live)
  ]
  apply-step (fail_all report) l v = elim (Bool-cases l.0.is_finished) [
    | inl over ↦ ap view_of (if_true _ _ over) ∙ sym (if_true _ _ over)
    | inr live ↦ ap view_of (if_false _ _ live) ∙ fail_all-view report l v ∙ sym (if_false _ _ live)
  ]
  apply-step (skip_all msg) l v = elim (Bool-cases l.0.is_finished) [
    | inl over ↦
        ap view_of (if_true _ _ over)
        ∙ sym
            (if_true {b = l.0.is_finished || is_empty (ids l.0.entries)} _ _ (ground (arith, over)))
    | inr live ↦
        ap view_of (if_false _ _ live ∙ skip_each-each c msg (ids l.0.entries) l)
        ∙ elim (Bool-cases (is_empty (ids l.0.entries))) [
          | inl none_left ↦
              ap view_of (each_none (λ id l'. skip_by_id c id msg l') (ids l.0.entries) l none_left)
              ∙ sym (
                  if_true {b = l.0.is_finished || is_empty (ids l.0.entries)} _ _
                    (ground (arith, none_left)))
          | inr some_stage ↦
              finish_all-view (λ id l'. skip_by_id c id msg l')
                (λ id l'. skip_by_id-Outcome c id l'.0 l'.1 msg) l v live some_stage
              ∙ sym (
                  if_false {b = l.0.is_finished || is_empty (ids l.0.entries)} _ _
                    (ground (arith, live, some_stage)))
        ]
  ]

  play-replay :
      (ops : List TaskOp) (l : Live)
      → IsConsistent l.0
      → view (play c ops l).0 ≡ replay ops (view l.0)
  unfolding play replay
  play-replay [] l v = refl
  play-replay (op ∷ ops) l v =
      play-replay ops (apply c op l) (apply-IsConsistent c op l v)
      ∙ ap (replay ops) (apply-step op l v)

  -- After any operations on a new task, on one stage or on all, whatever their order, the ids of
  -- its stages, the sets of finished and of failed stages and whether it has ended are those of an
  -- abstract machine that knows only the ids of the stages and the operations: not the screen, the
  -- rendering mode, the messages or the reports.
  pub play-new-replay :
      (r : TaskRenderer) (es : List TaskEntry) (w : Screen) (ops : List TaskOp)
      → view (play c ops (new c r es w)).0 ≡ replay ops (fresh (ids es))
  unfolding new contains
  play-new-replay r es w ops = play-replay ops (new c r es w) (new-IsConsistent c r es w)
