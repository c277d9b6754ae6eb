-- ===== src/Terminal/Task/Refine.antt =====
-- The operations on one stage, as steps of the abstract machine of Task/Spec.
use mathlib.Core.Path.{fun_ext}
use knot_ops.Prelude.{
  Bool, true, false, not, Text, List, [], ◌∷◌, ◌≡◌, refl, ap, sym, ◌∙◌, inl, inr, arith, any,
  is_empty, contains, insert, remove, text_eq_iff, contains-insert, contains-remove, if_true,
}
use knot_ops.Terminal.Task.Stages.{TaskEntry, ids}
use knot_ops.Terminal.Task.State.{Task, Live}
use knot_ops.Terminal.Task.Ops.{mark_running, mark_finished, mark_failed}
use knot_ops.Terminal.Task.Settle.{settle}
use knot_ops.Terminal.Task.Outcome.{Outcome}
use knot_ops.Terminal.Task.Inv.{IsConsistent}
use knot_ops.Terminal.Task.Spec.{
  TaskView, settled, with_one, without_one, marked_running, marked_finished, marked_failed, one,
}

-- What a caller can tell of a task.
abbrev pub view : Task → TaskView
view t = record {
  stages = ids t.entries;
  finished = contains t.finished_stages;
  failed = contains t.failed_stages;
  ended = t.is_finished;
}

-- Of an unfinished task: there is a failed stage exactly if the set of failed ones is not empty.
abbrev pub ShowsFailure : Task → Type 0
ShowsFailure t =
    t.is_finished ≡ false
    → is_empty t.failed_stages ≡ not (any (contains t.failed_stages) (ids t.entries))

settle-view : (t : Task) → ShowsFailure t → view (settle t) ≡ settled (view t)
unfolding settle settled ids
settle-view t h = ground (arith, h)

with_one-insert : (id : Text) (l : List Text) → contains (insert id l) ≡ with_one id (contains l)
with_one-insert id l = fun_ext λ k. contains-insert id k l

without_one-remove :
    (id : Text) (l : List Text) → contains (remove id l) ≡ without_one id (contains l)
without_one-remove id l = fun_ext λ k. contains-remove id k l

-- A mark on the sets of a task, and on its view.
pub record IsMark (mark : Text → Task → Task) (marked : Text → TaskView → TaskView) : Type 0 where
  pub views :
      (id : Text) (t : Task) (es : List TaskEntry)
      → ids es ≡ ids t.entries
      → view (record (mark id t) { entries = es }) ≡ marked id (view t)
  pub shows :
      (id : Text) (t : Task) (es : List TaskEntry)
      → ids es ≡ ids t.entries
      → contains (ids t.entries) id ≡ true
      → (t.is_finished ≡ false → t.failed_stages ≡ [])
      → ShowsFailure (record (mark id t) { entries = es })

nothing_failed : (l : List Text) → any (contains []) l ≡ false
unfolding contains
nothing_failed [] = refl
nothing_failed (x ∷ l) = nothing_failed l

just_failed : (id : Text) (l : List Text) → contains l id ≡ true → any (contains (id ∷ [])) l ≡ true
unfolding contains
just_failed id [] h = cc
just_failed id (x ∷ l) h = ground (arith, just_failed id l, text_eq_iff x id, text_eq_iff id x)

none_after_removal :
    (id : Text) (l stages : List Text)
    → l ≡ []
    → is_empty (remove id l) ≡ not (any (contains (remove id l)) stages)
unfolding remove
none_after_removal id l stages e = rw e (rw (nothing_failed stages) refl)

one_after_insertion :
    (id : Text) (l stages : List Text)
    → l ≡ []
    → contains stages id ≡ true
    → is_empty (insert id l) ≡ not (any (contains (insert id l)) stages)
unfolding insert contains
one_after_insertion id l stages e known = rw e (rw (just_failed id stages known) refl)

pub mark_running-IsMark : IsMark mark_running marked_running
unfolding mark_running marked_running
mark_running-IsMark = record {
  views = λ id t es same.
      rw (same, without_one-remove id t.finished_stages, without_one-remove id t.failed_stages)
        refl;
  shows =
      λ id t es same known calm live. none_after_removal id t.failed_stages (ids es) (calm live);
}

pub mark_finished-IsMark : IsMark mark_finished marked_finished
unfolding mark_finished marked_finished
mark_finished-IsMark = record {
  views = λ id t es same.
      rw (same, with_one-insert id t.finished_stages, without_one-remove id t.failed_stages) refl;
  shows =
      λ id t es same known calm live. none_after_removal id t.failed_stages (ids es) (calm live);
}

pub mark_failed-IsMark : IsMark mark_failed marked_failed
unfolding mark_failed marked_failed
mark_failed-IsMark = record {
  views = λ id t es same.
      rw (same, without_one-remove id t.finished_stages, with_one-insert id t.failed_stages) refl;
  shows = λ id t es same known calm live.
      one_after_insertion id t.failed_stages (ids es) (calm live) (rw same known);
}

-- An operation on one stage is the step on one stage of the abstract machine.
pub Outcome-one :
    (mark : Text → Task → Task) (marked : Text → TaskView → TaskView) (id : Text) (l : Live)
    (r : Bool × Live)
    → IsMark mark marked
    → IsConsistent l.0
    → Outcome (mark id) id l r
    → view r.1.0 ≡ one marked id (view l.0)
unfolding one
Outcome-one mark marked id l r m v (inl (absent, e)) = rw (absent, e) refl
Outcome-one mark marked id l r m v (inr (es, known, same, result, settles)) =
    ap view settles
    ∙ settle-view (record (mark id l.0) { entries = es }) (m.shows id l.0 es same known v.calm)
    ∙ ap settled (m.views id l.0 es same)
    ∙ sym (if_true _ _ known)
