-- ===== src/Terminal/Task/Trace.antt =====
-- What holds of a task after any sequence of operations.
use knot_ops.Prelude.{Bool, true, false, Text, Option, List, [], ◌∷◌, if◌then◌else◌, is_empty}
use knot_ops.Terminal.Console.{Console, Screen}
use knot_ops.Terminal.Renderer.{TaskRenderer}
use knot_ops.Terminal.Report.{ErrorReport}
use knot_ops.Terminal.Task.Stages.{TaskEntry, ids}
use knot_ops.Terminal.Task.State.{Live, new, set_completed, set_failed_and_clear}
use knot_ops.Terminal.Task.Ops.{
  run_by_id, ok_by_id, fail_by_id, skip_by_id, ok_each, fail_each, run_each, skip_each, perform_ok,
  perform_fail, perform_run, perform_skip,
}
use knot_ops.Terminal.Task.Inv.{
  IsConsistent, new-IsConsistent, run_by_id-IsConsistent, ok_by_id-IsConsistent,
  fail_by_id-IsConsistent, skip_by_id-IsConsistent,
}

-- The operations of the public interface; the bulk ones that take the task by value come last.
pub data TaskOp : Type 0 where
  run_one : Text → Option Text → TaskOp
  ok_one : Text → Text → TaskOp
  fail_one : Text → ErrorReport → TaskOp
  skip_one : Text → Text → TaskOp
  run_all : Option Text → TaskOp
  ok_all : Text → TaskOp
  fail_all : ErrorReport → TaskOp
  skip_all : Text → TaskOp

if_IsConsistent :
    (b : Bool) (x y : Live)
    → IsConsistent x.0
    → IsConsistent y.0
    → IsConsistent (if b then x else y).0
if_IsConsistent true x y vx vy = vx
if_IsConsistent false x y vx vy = vy

module _ (c : Console) where
  unfoldable pub apply : TaskOp → Live → Live
  apply (run_one id msg) l = (run_by_id c id msg l).1
  apply (ok_one id msg) l = (ok_by_id c id msg l).1
  apply (fail_one id report) l = (fail_by_id c id report l).1
  apply (skip_one id msg) l = (skip_by_id c id msg l).1
  apply (run_all msg) l = perform_run c msg l
  apply (ok_all msg) l = perform_ok c msg l
  apply (fail_all report) l = perform_fail c report l
  apply (skip_all msg) l = perform_skip c msg l

  unfoldable pub play : List TaskOp → Live → Live
  play [] l = l
  play (op ∷ ops) l = play ops (apply op l)

  ok_each-IsConsistent :
      (todo : List Text) (msg : Text) (l : Live)
      → IsConsistent l.0
      → IsConsistent (ok_each c todo msg l).0
  unfolding ok_each
  ok_each-IsConsistent [] msg l v = v
  ok_each-IsConsistent (id ∷ rest) msg l v =
      ok_each-IsConsistent rest msg (ok_by_id c id msg l).1
        (ok_by_id-IsConsistent c id l.0 l.1 v msg)

  skip_each-IsConsistent :
      (todo : List Text) (msg : Text) (l : Live)
      → IsConsistent l.0
      → IsConsistent (skip_each c todo msg l).0
  unfolding skip_each
  skip_each-IsConsistent [] msg l v = v
  skip_each-IsConsistent (id ∷ rest) msg l v =
      skip_each-IsConsistent rest msg (skip_by_id c id msg l).1
        (skip_by_id-IsConsistent c id l.0 l.1 v msg)

  pub run_each-IsConsistent :
      (todo : List Text) (msg : Option Text) (l : Live)
      → IsConsistent l.0
      → IsConsistent (run_each c todo msg l).0
  unfolding run_each
  run_each-IsConsistent [] msg l v = v
  run_each-IsConsistent (id ∷ rest) msg l v =
      run_each-IsConsistent rest msg (run_by_id c id msg l).1
        (run_by_id-IsConsistent c id l.0 l.1 v msg)

  fail_each-IsConsistent :
      (todo : List Text) (report : ErrorReport) (l : Live)
      → IsConsistent l.0
      → IsConsistent (fail_each c todo report l).0
  unfolding fail_each
  fail_each-IsConsistent [] report l v = v
  fail_each-IsConsistent (id ∷ rest) report l v =
      fail_each-IsConsistent rest report (fail_by_id c id report l).1
        (fail_by_id-IsConsistent c id l.0 l.1 v report)

  set_completed-IsConsistent :
      (msg : Text) (l : Live) → IsConsistent l.0 → IsConsistent (set_completed c msg l).0
  unfolding set_completed
  set_completed-IsConsistent msg l v =
      if_IsConsistent l.0.is_finished l _ v
        (record { disjoint = v.disjoint; calm = λ e. cc; pending = λ e. cc })

  set_failed_and_clear-IsConsistent :
      (report : ErrorReport) (l : Live)
      → IsConsistent l.0
      → IsConsistent (set_failed_and_clear c report l).0
  unfolding set_failed_and_clear
  set_failed_and_clear-IsConsistent report l v = record {
    disjoint = v.disjoint;
    calm = λ e. cc;
    pending = λ e. cc;
  }

  -- Every operation keeps a task consistent, in every state of the task.
  pub apply-IsConsistent : (op : TaskOp) (l : Live) → IsConsistent l.0 → IsConsistent (apply op l).0
  unfolding apply perform_run perform_ok perform_fail perform_skip
  apply-IsConsistent (run_one id msg) l v = run_by_id-IsConsistent c id l.0 l.1 v msg
  apply-IsConsistent (ok_one id msg) l v = ok_by_id-IsConsistent c id l.0 l.1 v msg
  apply-IsConsistent (fail_one id report) l v = fail_by_id-IsConsistent c id l.0 l.1 v report
  apply-IsConsistent (skip_one id msg) l v = skip_by_id-IsConsistent c id l.0 l.1 v msg
  apply-IsConsistent (run_all msg) l v =
      if_IsConsistent l.0.is_finished l _ v (run_each-IsConsistent (ids l.0.entries) msg l v)
  apply-IsConsistent (ok_all msg) l v = if_IsConsistent l.0.is_finished l _ v (
      if_IsConsistent (is_empty (ids l.0.entries)) _ _ (set_completed-IsConsistent msg l v)
        (ok_each-IsConsistent (ids l.0.entries) msg l v))
  apply-IsConsistent (fail_all report) l v = if_IsConsistent l.0.is_finished l _ v (
      set_failed_and_clear-IsConsistent report _
        (fail_each-IsConsistent (ids l.0.entries) report l v))
  apply-IsConsistent (skip_all msg) l v =
      if_IsConsistent l.0.is_finished l _ v (skip_each-IsConsistent (ids l.0.entries) msg l v)

  pub play-IsConsistent :
      (ops : List TaskOp) (l : Live) → IsConsistent l.0 → IsConsistent (play ops l).0
  unfolding play
  play-IsConsistent [] l v = v
  play-IsConsistent (op ∷ ops) l v = play-IsConsistent ops (apply op l) (apply-IsConsistent op l v)

  -- After any operations on a new task, on one stage or on all, whatever their order, no stage is
  -- both finished and failed; and while the task is unfinished no stage has failed and some stage
  -- is not finished, unless the task has no stage.
  pub play-new-IsConsistent :
      (r : TaskRenderer) (es : List TaskEntry) (w : Screen) (ops : List TaskOp)
      → IsConsistent (play ops (new c r es w)).0
  play-new-IsConsistent r es w ops =
      play-IsConsistent ops (new c r es w) (new-IsConsistent c r es w)
