-- ===== src/Terminal/Task/Inv.antt =====
-- What holds of a task between two operations.
use knot_ops.Prelude.{
  Bool, true, false, Text, Option, List, [], ◌∷◌, ◌≡◌, refl, ◌⊎◌, inl, inr, arith, all, contains,
  contains-insert, contains-remove,
}
use knot_ops.Terminal.Console.{Console, Screen}
use knot_ops.Terminal.Renderer.{TaskRenderer}
use knot_ops.Terminal.Report.{ErrorReport}
use knot_ops.Terminal.Task.Stages.{TaskEntry, ids}
use knot_ops.Terminal.Task.State.{Task, Live, new}
use knot_ops.Terminal.Task.Ops.{
  mark_running, mark_finished, mark_failed, run_by_id, ok_by_id, fail_by_id, skip_by_id,
}
use knot_ops.Terminal.Task.Settle.{settle}
use knot_ops.Terminal.Task.Outcome.{
  Outcome, run_by_id-Outcome, ok_by_id-Outcome, fail_by_id-Outcome, skip_by_id-Outcome,
}

-- No stage is both finished and failed; while the task is unfinished no stage has failed, and some
-- stage is not finished, unless there is none.
pub record IsConsistent (t : Task) : Type 0 where
  pub disjoint :
      (k : Text) → contains t.finished_stages k ≡ true → contains t.failed_stages k ≡ false
  pub calm : t.is_finished ≡ false → t.failed_stages ≡ []
  pub pending :
      t.is_finished ≡ false
      → (ids t.entries ≡ []) ⊎ (all (contains t.finished_stages) (ids t.entries) ≡ false)

abbrev pub Disjoint : Task → Type 0
Disjoint t = (k : Text) → contains t.finished_stages k ≡ true → contains t.failed_stages k ≡ false

settle-IsConsistent : (t : Task) → Disjoint t → IsConsistent (settle t)
unfolding settle
settle-IsConsistent t d = record {
  disjoint = λ k. ground (arith, d k);
  calm = ground arith;
  pending = ground arith;
}

pub mark_running-Disjoint : (id : Text) (t : Task) → Disjoint t → Disjoint (mark_running id t)
unfolding mark_running
mark_running-Disjoint id t d k =
    ground
      (arith, d k, contains-remove id k t.finished_stages, contains-remove id k t.failed_stages)

pub mark_finished-Disjoint : (id : Text) (t : Task) → Disjoint t → Disjoint (mark_finished id t)
unfolding mark_finished
mark_finished-Disjoint id t d k =
    ground
      (arith, d k, contains-insert id k t.finished_stages, contains-remove id k t.failed_stages)

pub mark_failed-Disjoint : (id : Text) (t : Task) → Disjoint t → Disjoint (mark_failed id t)
unfolding mark_failed
mark_failed-Disjoint id t d k =
    ground
      (arith, d k, contains-remove id k t.finished_stages, contains-insert id k t.failed_stages)

pub Outcome-IsConsistent :
    (mark : Task → Task) (id : Text) (l : Live) (r : Bool × Live)
    → Disjoint (mark l.0)
    → Outcome mark id l r
    → IsConsistent l.0
    → IsConsistent r.1.0
Outcome-IsConsistent mark id l r d (inl (_, same)) v = rw same v
Outcome-IsConsistent mark id l r d (inr (es, _, _, _, settled)) v =
    rw settled (settle-IsConsistent (record (mark l.0) { entries = es }) d)

none_finished : (l : List Text) → (l ≡ []) ⊎ (all (contains []) l ≡ false)
unfolding contains
none_finished [] = inl refl
none_finished (k ∷ l) = inr refl

-- A new task is consistent.
pub new-IsConsistent :
    (c : Console) (r : TaskRenderer) (es : List TaskEntry) (w : Screen)
    → IsConsistent (new c r es w).0
unfolding new contains
new-IsConsistent c r es w = record {
  disjoint = λ k h. refl;
  calm = λ _. refl;
  pending = λ _. none_finished (ids es);
}

module _ (c : Console) (id : Text) (t : Task) (w : Screen) (v : IsConsistent t) where
  pub run_by_id-IsConsistent : (msg : Option Text) → IsConsistent (run_by_id c id msg (t, w)).1.0
  run_by_id-IsConsistent msg =
      Outcome-IsConsistent (mark_running id) id (t, w) _ (mark_running-Disjoint id t v.disjoint)
        (run_by_id-Outcome c id t w msg) v

  pub ok_by_id-IsConsistent : (msg : Text) → IsConsistent (ok_by_id c id msg (t, w)).1.0
  ok_by_id-IsConsistent msg =
      Outcome-IsConsistent (mark_finished id) id (t, w) _ (mark_finished-Disjoint id t v.disjoint)
        (ok_by_id-Outcome c id t w msg) v

  pub fail_by_id-IsConsistent :
      (report : ErrorReport) → IsConsistent (fail_by_id c id report (t, w)).1.0
  fail_by_id-IsConsistent report =
      Outcome-IsConsistent (mark_failed id) id (t, w) _ (mark_failed-Disjoint id t v.disjoint)
        (fail_by_id-Outcome c id t w report) v

  pub skip_by_id-IsConsistent : (msg : Text) → IsConsistent (skip_by_id c id msg (t, w)).1.0
  skip_by_id-IsConsistent msg =
      Outcome-IsConsistent (mark_finished id) id (t, w) _ (mark_finished-Disjoint id t v.disjoint)
        (skip_by_id-Outcome c id t w msg) v
