-- ===== src/Terminal/Task/Results.antt =====
-- What the operations on one stage return, and what a finished or unfinished task does with them.
use knot_ops.Prelude.{
  Bool, true, false, not, ◌&&◌, Text, Option, List, [], ◌≡◌, inl, inr, arith, if◌then◌else◌, all,
  contains, insert, remove,
}
use knot_ops.Terminal.Console.{Console, Screen}
use knot_ops.Terminal.Report.{ErrorReport}
use knot_ops.Terminal.Task.Stages.{TaskEntry, ids}
use knot_ops.Terminal.Task.State.{Task, Live}
use knot_ops.Terminal.Task.Ops.{
  mark_running, mark_finished, mark_failed, run_by_id, ok_by_id, fail_by_id, skip_by_id,
}
use knot_ops.Terminal.Task.Settle.{settle}
use knot_ops.Terminal.Task.Outcome.{
  Outcome, run_by_id-Outcome, ok_by_id-Outcome, fail_by_id-Outcome, skip_by_id-Outcome,
}
use knot_ops.Terminal.Task.Inv.{IsConsistent}

Outcome-result :
    (mark : Task → Task) (id : Text) (l : Live) (r : Bool × Live)
    → Outcome mark id l r
    → r.0 ≡ (contains (ids l.0.entries) id && not l.0.is_finished)
Outcome-result mark id l r (inl (absent, e)) = ground arith
Outcome-result mark id l r (inr (es, present, _, result, _)) = rw present result

-- run_by_id, ok_by_id, fail_by_id and skip_by_id return true exactly if the task has a stage of
-- the id and was not finished before.
pub by_id_result :
    (c : Console) (id : Text) (t : Task) (w : Screen)
    → let answer = contains (ids t.entries) id && not t.is_finished in
      ((msg : Option Text) → (run_by_id c id msg (t, w)).0 ≡ answer)
      × ((msg : Text) → (ok_by_id c id msg (t, w)).0 ≡ answer)
      × ((report : ErrorReport) → (fail_by_id c id report (t, w)).0 ≡ answer)
      × ((msg : Text) → (skip_by_id c id msg (t, w)).0 ≡ answer)
by_id_result c id t w = (
  λ msg. Outcome-result (mark_running id) id (t, w) _ (run_by_id-Outcome c id t w msg),
  λ msg. Outcome-result (mark_finished id) id (t, w) _ (ok_by_id-Outcome c id t w msg),
  λ msg. Outcome-result (mark_failed id) id (t, w) _ (fail_by_id-Outcome c id t w msg),
  λ msg. Outcome-result (mark_finished id) id (t, w) _ (skip_by_id-Outcome c id t w msg),
)

-- What a success leaves of an unfinished task.
abbrev pub Progress : Text → Task → Task → Type 0
Progress id t t' =
    let done = insert id t.finished_stages in
    let all_done = all (contains done) (ids t.entries) in
    (t'.finished_stages ≡ done)
    × (t'.failed_stages ≡ [])
    × (t'.is_finished ≡ all_done)
    × (ids t'.entries ≡ (if all_done then [] else ids t.entries))

settle-Progress :
    (id : Text) (t : Task) (es : List TaskEntry)
    → t.is_finished ≡ false
    → t.failed_stages ≡ []
    → ids es ≡ ids t.entries
    → Progress id t (settle (record (mark_finished id t) { entries = es }))
unfolding settle mark_finished remove ids
settle-Progress id t es live calm same = ground arith

module _ (c : Console) (id msg : Text) (t : Task) (w : Screen) where
  -- On an unfinished, consistent task with a stage of the id, ok_by_id and skip_by_id add it to
  -- the finished stages, leave no failed one, and finish and clear the task exactly if all its
  -- stages are finished then.
  pub finish_by_id-Progress :
      IsConsistent t
      → t.is_finished ≡ false
      → contains (ids t.entries) id ≡ true
      → Progress id t (ok_by_id c id msg (t, w)).1.0
        × Progress id t (skip_by_id c id msg (t, w)).1.0
  finish_by_id-Progress v live known = (
    progress (ok_by_id c id msg (t, w)) (ok_by_id-Outcome c id t w msg),
    progress (skip_by_id c id msg (t, w)) (skip_by_id-Outcome c id t w msg),
  )
    where
      progress : (r : Bool × Live) → Outcome (mark_finished id) id (t, w) r → Progress id t r.1.0
      progress r (inl (absent, _)) = cc
      progress r (inr (es, _, same, _, settled)) =
          rw settled (settle-Progress id t es live (v.calm live) same)
