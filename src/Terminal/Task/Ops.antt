-- ===== src/Terminal/Task/Ops.antt =====
-- task.rs: the operations on one stage, and those on all of them.
use knot_ops.Prelude.{
  Bool, false, Text, Option, none, some, List, [], ◌∷◌, if◌then◌else◌, is_empty, insert, remove,
}
use knot_ops.Terminal.Console.{Console, now}
use knot_ops.Terminal.Report.{ErrorReport}
use knot_ops.Terminal.Task.Stages.{Stage, find_stage, set_stage, ids}
use knot_ops.Terminal.Task.Stages
use knot_ops.Terminal.Task.State.{Task, Live, set_completed, set_failed_and_clear, update_state}

-- What the four operations do to the two sets of a task.
unfoldable pub mark_running : Text → Task → Task
mark_running id t = record t {
  finished_stages = remove id t.finished_stages;
  failed_stages = remove id t.failed_stages;
}

unfoldable pub mark_finished : Text → Task → Task
mark_finished id t = record t {
  finished_stages = insert id t.finished_stages;
  failed_stages = remove id t.failed_stages;
}

unfoldable pub mark_failed : Text → Task → Task
mark_failed id t = record t {
  finished_stages = remove id t.finished_stages;
  failed_stages = insert id t.failed_stages;
}

module _ (c : Console) where
  -- The start time is set under the stage's lock; the entry keeps it.
  unfoldable pub run_stage : Text → Option Text → Stage → Live → Live
  run_stage id msg s (t, w) =
      let (start, w1) = now c w in
      let s' : Stage = record s { start_time = some start } in
      (record t { entries = set_stage id s' t.entries }, Stages.run c s' msg w1)

  unfoldable pub fail_stage : Text → ErrorReport → Stage → Live → Live
  fail_stage id report s (t, w) =
      let (s', w1) = Stages.fail c s report w in
      (record t { entries = set_stage id s' t.entries }, w1)

  unfoldable pub run_by_id : Text → Option Text → Live → Bool × Live
  unfolding run_stage mark_running
  run_by_id id msg (t, w) = elim (find_stage id t.entries) [
    | none ↦ (false, (t, w))
    | some s ↦ let (t1, w1) = run_stage id msg s (t, w) in update_state c (mark_running id t1, w1)
  ]

  unfoldable pub ok_by_id : Text → Text → Live → Bool × Live
  unfolding mark_finished
  ok_by_id id msg (t, w) = elim (find_stage id t.entries) [
    | none ↦ (false, (t, w))
    | some s ↦ update_state c (mark_finished id t, Stages.success c s msg w)
  ]

  unfoldable pub fail_by_id : Text → ErrorReport → Live → Bool × Live
  unfolding fail_stage mark_failed
  fail_by_id id report (t, w) = elim (find_stage id t.entries) [
    | none ↦ (false, (t, w))
    | some s ↦
        let (t1, w1) = fail_stage id report s (t, w) in update_state c (mark_failed id t1, w1)
  ]

  unfoldable pub skip_by_id : Text → Text → Live → Bool × Live
  unfolding mark_finished
  skip_by_id id msg (t, w) = elim (find_stage id t.entries) [
    | none ↦ (false, (t, w))
    | some s ↦ update_state c (mark_finished id t, Stages.skip c s msg w)
  ]

  unfoldable pub ok_each : List Text → Text → Live → Live
  ok_each [] msg l = l
  ok_each (id ∷ rest) msg l = ok_each rest msg (ok_by_id id msg l).1

  -- `ok`, `perform_ok`
  unfoldable pub perform_ok : Text → Live → Live
  perform_ok msg (t, w) =
      if t.is_finished
      then (t, w)
      else if is_empty (ids t.entries)
      then set_completed c msg (t, w)
      else ok_each (ids t.entries) msg (t, w)

  unfoldable pub fail_each : List Text → ErrorReport → Live → Live
  fail_each [] error l = l
  fail_each (id ∷ rest) error l = fail_each rest error (fail_by_id id error l).1

  -- `fail`, `perform_fail`
  unfoldable pub perform_fail : ErrorReport → Live → Live
  perform_fail error (t, w) =
      if t.is_finished
      then (t, w)
      else set_failed_and_clear c error (fail_each (ids t.entries) error (t, w))

  unfoldable pub run_each : List Text → Option Text → Live → Live
  run_each [] msg l = l
  run_each (id ∷ rest) msg l = run_each rest msg (run_by_id id msg l).1

  -- `run`, `perform_run`
  unfoldable pub perform_run : Option Text → Live → Live
  perform_run msg (t, w) = if t.is_finished then (t, w) else run_each (ids t.entries) msg (t, w)

  unfoldable pub skip_each : List Text → Text → Live → Live
  skip_each [] msg l = l
  skip_each (id ∷ rest) msg l = skip_each rest msg (skip_by_id id msg l).1

  -- `skip`, `perform_skip`
  unfoldable pub perform_skip : Text → Live → Live
  perform_skip msg (t, w) = if t.is_finished then (t, w) else skip_each (ids t.entries) msg (t, w)
