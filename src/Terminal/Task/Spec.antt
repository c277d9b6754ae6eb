-- ===== src/Terminal/Task/Spec.antt =====
-- What a task is to its caller: an abstract machine over the ids of its stages, without renderers,
-- screens, messages and times. An operation on all stages is a single change of the sets.
use knot_ops.Prelude.{
  Bool, true, false, not, ◌&&◌, ◌||◌, Text, List, [], ◌∷◌, if◌then◌else◌, all, any, is_empty,
  contains, text_eq,
}
use knot_ops.Terminal.Task.Trace.{
  TaskOp, run_one, ok_one, fail_one, skip_one, run_all, ok_all, fail_all, skip_all,
}

pub record TaskView : Type 0 where
  pub stages : List Text
  pub finished : Text → Bool
  pub failed : Text → Bool
  pub ended : Bool

-- A new task with these stages.
abbrev pub fresh : List Text → TaskView
fresh stages = record { stages = stages; finished = λ k. false; failed = λ k. false; ended = false }

-- A failed stage ends a task, which keeps its stages; without one, a task whose stages are all finished
-- ends and loses them.
unfoldable pub settled : TaskView → TaskView
settled v =
    if v.ended
    then v
    else if any v.failed v.stages
    then record v { ended = true }
    else if all v.finished v.stages
    then record v { ended = true; stages = [] }
    else v

-- A set with an element more or less, and with the elements of a list more or less.
abbrev pub with_one : Text → (Text → Bool) → Text → Bool
with_one id f k = text_eq id k || f k

abbrev pub without_one : Text → (Text → Bool) → Text → Bool
without_one id f k = if text_eq id k then false else f k

abbrev pub with_all : List Text → (Text → Bool) → Text → Bool
with_all l f k = f k || contains l k

abbrev pub without_all : List Text → (Text → Bool) → Text → Bool
without_all l f k = f k && not (contains l k)

unfoldable pub marked_running : Text → TaskView → TaskView
marked_running id v = record v {
  finished = without_one id v.finished;
  failed = without_one id v.failed;
}

unfoldable pub marked_finished : Text → TaskView → TaskView
marked_finished id v = record v {
  finished = with_one id v.finished;
  failed = without_one id v.failed;
}

unfoldable pub marked_failed : Text → TaskView → TaskView
marked_failed id v = record v {
  finished = without_one id v.finished;
  failed = with_one id v.failed;
}

-- An operation on one stage, which leaves the task alone if it has no such stage.
unfoldable pub one : (Text → TaskView → TaskView) → Text → TaskView → TaskView
unfolding settled
one mark id v = if contains v.stages id then settled (mark id v) else v

unfoldable pub completed : TaskView → TaskView
completed v = record {
  stages = [];
  finished = with_all v.stages v.finished;
  failed = without_all v.stages v.failed;
  ended = true;
}

unfoldable pub step : TaskOp → TaskView → TaskView
unfolding one completed
step (run_one id msg) v = one marked_running id v
step (ok_one id msg) v = one marked_finished id v
step (fail_one id report) v = one marked_failed id v
step (skip_one id msg) v = one marked_finished id v
step (run_all msg) v = if v.ended then v else record v {
  finished = without_all v.stages v.finished;
  failed = without_all v.stages v.failed;
}
step (ok_all msg) v = if v.ended then v else completed v
step (fail_all report) v = if v.ended then v else record {
  stages = [];
  finished = without_all v.stages v.finished;
  failed = with_all v.stages v.failed;
  ended = true;
}
step (skip_all msg) v = if v.ended || is_empty v.stages then v else completed v

unfoldable pub replay : List TaskOp → TaskView → TaskView
unfolding step
replay [] v = v
replay (op ∷ ops) v = replay ops (step op v)
