-- ===== src/Terminal/Task/Outcome.antt =====
-- What each operation on one stage does to the state of the task, on both of its branches.
use knot_ops.Prelude.{
  Bool, true, false, not, Text, Option, List, ◌≡◌, refl, ◌⊎◌, inl, inr, some, contains,
}
use knot_ops.Terminal.Console.{Console, Screen, now}
use knot_ops.Terminal.Report.{ErrorReport}
use knot_ops.Terminal.Task.Stages.{Stage, TaskEntry, ids, find_stage, set_stage}
use knot_ops.Terminal.Task.Stages
use knot_ops.Terminal.Task.State.{Task, Live}
use knot_ops.Terminal.Task.Ops.{
  mark_running, mark_finished, mark_failed, run_by_id, ok_by_id, fail_by_id, skip_by_id,
}
use knot_ops.Terminal.Task.Settle.{
  settle, find_stage-Found, update_state-settle, update_state_result, ids-set_stage,
}

-- An unknown id changes nothing. A known one is marked, whatever the state of the task, and the state
-- of the task is settled anew; the result is whether the task was unfinished.
abbrev pub Outcome : (Task → Task) → Text → Live → Bool × Live → Type 0
Outcome mark id l r =
    ((contains (ids l.0.entries) id ≡ false) × (r ≡ (false, l)))
    ⊎ ((es : List TaskEntry) × (contains (ids l.0.entries) id ≡ true)
        × (ids es ≡ ids l.0.entries)
        × (r.0 ≡ not l.0.is_finished)
        × (r.1.0 ≡ settle (record (mark l.0) { entries = es })))

module _ (c : Console) (id : Text) (t : Task) (w : Screen) where
  pub ok_by_id-Outcome :
      (msg : Text) → Outcome (mark_finished id) id (t, w) (ok_by_id c id msg (t, w))
  unfolding ok_by_id
  ok_by_id-Outcome msg = elim (find_stage-Found id t.entries) [
    | inl (absent, e) ↦ inl (absent, rw (e, ok_by_id))
    | inr (s, present, e, same) ↦ inr (
      t.entries,
      present,
      refl,
      rw (e, ok_by_id) (update_state_result c _ _),
      rw (e, ok_by_id) (update_state-settle c _ _),
    )
  ]

  pub skip_by_id-Outcome :
      (msg : Text) → Outcome (mark_finished id) id (t, w) (skip_by_id c id msg (t, w))
  unfolding skip_by_id
  skip_by_id-Outcome msg = elim (find_stage-Found id t.entries) [
    | inl (absent, e) ↦ inl (absent, rw (e, skip_by_id))
    | inr (s, present, e, same) ↦ inr (
      t.entries,
      present,
      refl,
      rw (e, skip_by_id) (update_state_result c _ _),
      rw (e, skip_by_id) (update_state-settle c _ _),
    )
  ]

  pub run_by_id-Outcome :
      (msg : Option Text) → Outcome (mark_running id) id (t, w) (run_by_id c id msg (t, w))
  unfolding run_by_id now
  run_by_id-Outcome msg = elim (find_stage-Found id t.entries) [
    | inl (absent, e) ↦ inl (absent, rw (e, run_by_id))
    | inr (s, present, e, same) ↦ inr (
      set_stage id (record s { start_time = some (c.instant w.readings) }) t.entries,
      present,
      ids-set_stage id (record s { start_time = some (c.instant w.readings) }) t.entries same,
      rw (e, run_by_id) (update_state_result c _ _),
      rw (e, run_by_id) (update_state-settle c _ _),
    )
  ]

  pub fail_by_id-Outcome :
      (report : ErrorReport) → Outcome (mark_failed id) id (t, w) (fail_by_id c id report (t, w))
  unfolding fail_by_id
  fail_by_id-Outcome report = elim (find_stage-Found id t.entries) [
    | inl (absent, e) ↦ inl (absent, rw (e, fail_by_id))
    | inr (s, present, e, same) ↦ inr (
      set_stage id (Stages.fail c s report w).0 t.entries,
      present,
      ids-set_stage id (Stages.fail c s report w).0 t.entries (unfold Stages.fail in same),
      rw (e, fail_by_id) (update_state_result c _ _),
      rw (e, fail_by_id) (update_state-settle c _ _),
    )
  ]
