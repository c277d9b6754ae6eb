-- ===== src/Terminal/Task/Quiet/Ops.antt =====
-- The operations of a task in plain mode.
use knot_ops.Prelude.{
  ℕ, Text, Option, none, some, List, [], ◌∷◌, sym, subst, if◌then◌else◌, is_empty,
}
use knot_ops.Terminal.Console.{Console, Screen, now}
use knot_ops.Terminal.Report.{ErrorReport}
use knot_ops.Terminal.Renderer.Quiet.{
  IsQuiet, IsQuiet-still, IsQuiet-then, IsQuiet-now, IsPlain, run-IsQuiet, skip-IsQuiet,
  success-IsQuiet, fail_insert-IsQuiet,
}
use knot_ops.Terminal.Task.Stages.{
  Stage, TaskEntry, stage, extra, entry_renderer, find_stage, set_stage, ids, started_or_now,
}
use knot_ops.Terminal.Task.Stages
use knot_ops.Terminal.Task.State.{Task, Live, set_completed, set_failed_and_clear, update_state}
use knot_ops.Terminal.Task.Ops.{
  mark_running, mark_finished, mark_failed, run_stage, fail_stage, run_by_id, ok_by_id, fail_by_id,
  skip_by_id, ok_each, fail_each, run_each, skip_each, perform_ok, perform_fail, perform_run,
  perform_skip,
}
use knot_ops.Terminal.Task.Trace.{
  TaskOp, run_one, ok_one, fail_one, skip_one, run_all, ok_all, fail_all, skip_all, apply, play,
}
use knot_ops.Terminal.Task.Quiet.{
  IsPlainTask, StaysPlain, stays_then, if_StaysPlain, find_stage-Found, if_Found-StaysPlain,
  set_stage-ArePlain, set_completed-StaysPlain, set_failed_and_clear-StaysPlain,
  update_state-StaysPlain,
}

module _ (c : Console) where
  started-IsQuiet : (o : Option ℕ) (w : Screen) → IsQuiet w (started_or_now c o w).1
  unfolding started_or_now
  started-IsQuiet (some start) w = IsQuiet-still w
  started-IsQuiet none w = IsQuiet-now c w

  marked-StaysPlain :
      (l : Live) (t : Task) (w : Screen)
      → IsPlainTask t
      → IsQuiet l.1 w
      → StaysPlain l (update_state c (t, w)).1
  marked-StaysPlain l t w p q =
      stays_then l (t, w) (update_state c (t, w)).1 (p, q) (update_state-StaysPlain c (t, w) p)

  pub run_by_id-StaysPlain :
      (id : Text) (msg : Option Text) (l : Live)
      → IsPlainTask l.0
      → StaysPlain l (run_by_id c id msg l).1
  unfolding run_by_id run_stage mark_running Stages.run
  run_by_id-StaysPlain id msg l p =
      let w1 = (now c l.1).1 in
      if_Found-StaysPlain (find_stage id l.0.entries) l _ p (find_stage-Found id l.0.entries p.1)
        (λ s q.
          marked-StaysPlain l _ _ (p.0, set_stage-ArePlain id _ l.0.entries q p.1)
            (IsQuiet-then (IsQuiet-now c l.1) (run-IsQuiet c s.renderer msg w1 q)))

  pub ok_by_id-StaysPlain :
      (id msg : Text) (l : Live) → IsPlainTask l.0 → StaysPlain l (ok_by_id c id msg l).1
  unfolding ok_by_id mark_finished Stages.success
  ok_by_id-StaysPlain id msg l p =
      if_Found-StaysPlain (find_stage id l.0.entries) l _ p (find_stage-Found id l.0.entries p.1)
        (λ s q.
          let (start, w1) = started_or_now c s.start_time l.1 in
          marked-StaysPlain l _ _ p (
            IsQuiet-then (started-IsQuiet s.start_time l.1)
              (success-IsQuiet c s.renderer msg start w1 q)))

  pub skip_by_id-StaysPlain :
      (id msg : Text) (l : Live) → IsPlainTask l.0 → StaysPlain l (skip_by_id c id msg l).1
  unfolding skip_by_id mark_finished Stages.skip
  skip_by_id-StaysPlain id msg l p =
      if_Found-StaysPlain (find_stage id l.0.entries) l _ p (find_stage-Found id l.0.entries p.1)
        (λ s q. marked-StaysPlain l _ _ p (skip-IsQuiet c s.renderer msg l.1 q))

  pub fail_by_id-StaysPlain :
      (id : Text) (report : ErrorReport) (l : Live)
      → IsPlainTask l.0
      → StaysPlain l (fail_by_id c id report l).1
  unfolding fail_by_id fail_stage mark_failed Stages.fail
  fail_by_id-StaysPlain id report l p =
      if_Found-StaysPlain (find_stage id l.0.entries) l _ p (find_stage-Found id l.0.entries p.1)
        (λ s q.
          let (start, w1) = started_or_now c s.start_time l.1 in
          let (same, quiet) = fail_insert-IsQuiet c s.renderer report start w1 q in
          marked-StaysPlain l _ _
            (p.0, set_stage-ArePlain id _ l.0.entries (subst (λ r. IsPlain r) (sym same) q) p.1)
            (IsQuiet-then (started-IsQuiet s.start_time l.1) quiet))

  -- The loops over all stages.
  pub run_each-StaysPlain :
      (todo : List Text) (msg : Option Text) (l : Live)
      → IsPlainTask l.0
      → StaysPlain l (run_each c todo msg l)
  unfolding run_each
  run_each-StaysPlain [] msg l p = (p, IsQuiet-still l.1)
  run_each-StaysPlain (id ∷ rest) msg l p =
      let h = run_by_id-StaysPlain id msg l p in
      let l1 = (run_by_id c id msg l).1 in
      stays_then l l1 (run_each c rest msg l1) h (run_each-StaysPlain rest msg l1 h.0)

  ok_each-StaysPlain :
      (todo : List Text) (msg : Text) (l : Live)
      → IsPlainTask l.0
      → StaysPlain l (ok_each c todo msg l)
  unfolding ok_each
  ok_each-StaysPlain [] msg l p = (p, IsQuiet-still l.1)
  ok_each-StaysPlain (id ∷ rest) msg l p =
      let h = ok_by_id-StaysPlain id msg l p in
      let l1 = (ok_by_id c id msg l).1 in
      stays_then l l1 (ok_each c rest msg l1) h (ok_each-StaysPlain rest msg l1 h.0)

  skip_each-StaysPlain :
      (todo : List Text) (msg : Text) (l : Live)
      → IsPlainTask l.0
      → StaysPlain l (skip_each c todo msg l)
  unfolding skip_each
  skip_each-StaysPlain [] msg l p = (p, IsQuiet-still l.1)
  skip_each-StaysPlain (id ∷ rest) msg l p =
      let h = skip_by_id-StaysPlain id msg l p in
      let l1 = (skip_by_id c id msg l).1 in
      stays_then l l1 (skip_each c rest msg l1) h (skip_each-StaysPlain rest msg l1 h.0)

  fail_each-StaysPlain :
      (todo : List Text) (report : ErrorReport) (l : Live)
      → IsPlainTask l.0
      → StaysPlain l (fail_each c todo report l)
  unfolding fail_each
  fail_each-StaysPlain [] report l p = (p, IsQuiet-still l.1)
  fail_each-StaysPlain (id ∷ rest) report l p =
      let h = fail_by_id-StaysPlain id report l p in
      let l1 = (fail_by_id c id report l).1 in
      stays_then l l1 (fail_each c rest report l1) h (fail_each-StaysPlain rest report l1 h.0)

  apply-StaysPlain : (op : TaskOp) (l : Live) → IsPlainTask l.0 → StaysPlain l (apply c op l)
  unfolding apply perform_run perform_ok perform_fail perform_skip
  apply-StaysPlain (run_one id msg) l p = run_by_id-StaysPlain id msg l p
  apply-StaysPlain (ok_one id msg) l p = ok_by_id-StaysPlain id msg l p
  apply-StaysPlain (fail_one id report) l p = fail_by_id-StaysPlain id report l p
  apply-StaysPlain (skip_one id msg) l p = skip_by_id-StaysPlain id msg l p
  apply-StaysPlain (run_all msg) l p =
      if_StaysPlain l.0.is_finished l l (run_each c (ids l.0.entries) msg l) (p, IsQuiet-still l.1)
        (run_each-StaysPlain (ids l.0.entries) msg l p)
  apply-StaysPlain (ok_all msg) l p =
      let full = set_completed c msg l in
      let each = ok_each c (ids l.0.entries) msg l in
      if_StaysPlain l.0.is_finished l l (if is_empty (ids l.0.entries) then full else each)
        (p, IsQuiet-still l.1)
        (if_StaysPlain (is_empty (ids l.0.entries)) l full each (set_completed-StaysPlain c msg l p)
          (ok_each-StaysPlain (ids l.0.entries) msg l p))
  apply-StaysPlain (fail_all report) l p =
      let h = fail_each-StaysPlain (ids l.0.entries) report l p in
      let l1 = fail_each c (ids l.0.entries) report l in
      if_StaysPlain l.0.is_finished l l (set_failed_and_clear c report l1) (p, IsQuiet-still l.1)
        (stays_then l l1 (set_failed_and_clear c report l1) h
          (set_failed_and_clear-StaysPlain c report l1 h.0))
  apply-StaysPlain (skip_all msg) l p =
      if_StaysPlain l.0.is_finished l l (skip_each c (ids l.0.entries) msg l) (p, IsQuiet-still l.1)
        (skip_each-StaysPlain (ids l.0.entries) msg l p)

  -- Any operations on a task in plain mode keep it so and only write lines.
  pub play-StaysPlain :
      (ops : List TaskOp) (l : Live) → IsPlainTask l.0 → StaysPlain l (play c ops l)
  unfolding play
  play-StaysPlain [] l p = (p, IsQuiet-still l.1)
  play-StaysPlain (op ∷ ops) l p =
      let h = apply-StaysPlain op l p in
      let l1 = apply c op l in stays_then l l1 (play c ops l1) h (play-StaysPlain ops l1 h.0)
