-- ===== src/Terminal/Scenarios.antt =====
-- A console that paints nothing, a task of two stages, and what the theorems about tasks and their
-- lines say of them.
mod Sequences
mod Layouts
mod Replays
use knot_ops.Prelude.{
  ℕ, ◌+◌, ◌≤◌, Bool, true, false, not, ◌&&◌, ◌||◌, Text, codes, decimal, Option, none, some, List,
  [], ◌∷◌, ◌≡◌, ◌≢◌, refl, arith, contains, text_eq, length, ◌==◌, spaces, repeat, is_empty_text,
}
use knot_ops.Terminal.Console.{Console, Screen, now}
use knot_ops.Terminal.Style
use knot_ops.Terminal.Report
use knot_ops.Terminal.Report.{ErrorReport}
use knot_ops.Terminal.Renderer
use knot_ops.Terminal.Renderer.{
  TaskRenderer, TaskRenderingStrategy, plain, interactive_mode, divider_line, line_template,
  running_prefix,
}
use knot_ops.Terminal.Renderer.Width.{divider_width, length-divider_line, length-running_prefix}
use knot_ops.Terminal.Task.{
  TaskEntry, stage, ids, Task, Live, run_by_id, ok_by_id, fail_by_id, skip_by_id, perform_ok,
  perform_fail, perform_run, perform_skip,
}
use knot_ops.Terminal.Task
use knot_ops.Terminal.Task.Inv.{IsConsistent, new-IsConsistent}
use knot_ops.Terminal.Task.Trace.{
  TaskOp, run_one, ok_one, fail_one, skip_all, play, play-new-IsConsistent,
}
use knot_ops.Terminal.Task.Results.{Progress, by_id_result, finish_by_id-Progress}
use knot_ops.Terminal.Task.Failure.{fail_by_id_ends, perform_fail_ends}
use knot_ops.Terminal.Task.Bulk.{
  IsCompleted, perform_ok-IsCompleted, perform_skip-IsCompleted, perform_skip_stageless,
}
use knot_ops.Terminal.Task.Restart.{perform_run_restarts}
use knot_ops.Terminal.Builder
use knot_ops.Terminal.Builder.{TaskBuilder, stage_step, group_step}
use knot_ops.Terminal.Builder.Start.{IsStarted, IsPainted, start-IsStarted}
use knot_ops.Terminal.Builder.Refusals.{autoruns, refuses_step, refuses_start}
use knot_ops.Terminal.Renderer.Panics.{refuses, refuses_run}

abbrev pub console : Console
console = record {
  instant = λ k. k;
  format_secs = decimal;
  paint = λ p t. t;
  strip_ansi_codes = λ t. t;
  wrap = λ t n. t ∷ [];
  termwidth = 80;
  accepts_template = λ t. true;
  tick_count = length;
}

abbrev pub blank : Screen
blank = record {
  log = [];
  anchor = none;
  node_counter = 0;
  bars = 0;
  readings = 0;
  panicked = false;
}

abbrev pub report : ErrorReport
report = Report.with_solution (codes "free some space") (Report.new (codes "disk full"))

abbrev pub strategy : TaskRenderingStrategy
strategy = plain (codes "[build]")

abbrev pub head : TaskRenderer
head = Renderer.new (codes "build") (plain []) Style.plain 0

abbrev pub fetch : Text
fetch = codes "fetch"

abbrev pub link : Text
link = codes "link"

abbrev pub entry : Text → TaskEntry
entry name =
    stage
      (record { id = name; renderer = Renderer.new name strategy Style.plain 3; start_time = none })

-- A task whose first stages are finished.
abbrev pub task_of : List Text → List TaskEntry → Task
task_of finished entries = record {
  renderer = head;
  entries = entries;
  start_time = 0;
  finished_stages = finished;
  failed_stages = [];
  is_finished = false;
}

abbrev pub two_stages : Task
two_stages = task_of [] (entry fetch ∷ entry link ∷ [])

two_stages-IsConsistent : IsConsistent two_stages
unfolding Task.new now
two_stages-IsConsistent = new-IsConsistent console head two_stages.entries blank

knows_link : contains (ids two_stages.entries) link ≡ true
unfolding ids Task.stages contains text_eq
knows_link = refl

has_stages : ids two_stages.entries ≢ []
unfolding ids Task.stages
has_stages e = cc

has_none : ids (task_of [] []).entries ≡ []
unfolding ids Task.stages
has_none = refl

abbrev pub operations : List TaskOp
operations =
    run_one fetch none
    ∷ ok_one fetch (codes "done")
    ∷ fail_one link report
    ∷ skip_all (codes "late")
    ∷ []

play-new-IsConsistent_example :
    IsConsistent (play console operations (Task.new console head two_stages.entries blank)).0
play-new-IsConsistent_example =
    play-new-IsConsistent console head two_stages.entries blank operations

by_id_result_example :
    let answer = contains (ids two_stages.entries) link && not two_stages.is_finished in
    ((msg : Option Text) → (run_by_id console link msg (two_stages, blank)).0 ≡ answer)
    × ((msg : Text) → (ok_by_id console link msg (two_stages, blank)).0 ≡ answer)
    × ((r : ErrorReport) → (fail_by_id console link r (two_stages, blank)).0 ≡ answer)
    × ((msg : Text) → (skip_by_id console link msg (two_stages, blank)).0 ≡ answer)
by_id_result_example = by_id_result console link two_stages blank

fail_by_id_ends_example :
    let (result, (t', w')) = fail_by_id console link report (two_stages, blank) in
    (result ≡ not two_stages.is_finished)
    × (t'.is_finished ≡ true)
    × (ids t'.entries ≡ ids two_stages.entries)
    × ((k : Text)
        → contains t'.failed_stages k ≡ (text_eq link k || contains two_stages.failed_stages k))
    × ((k : Text)
        → contains t'.finished_stages k
          ≡ (not (text_eq link k) && contains two_stages.finished_stages k))
fail_by_id_ends_example = fail_by_id_ends console link report two_stages blank knows_link

perform_skip_stageless_example :
    let t = task_of [] [] in
    (perform_skip console (codes "late") (t, blank) ≡ (t, blank))
    × ((perform_ok console (codes "late") (t, blank)).0.is_finished ≡ true)
perform_skip_stageless_example =
    perform_skip_stageless console (codes "late") (task_of [] []) blank refl has_none

abbrev builder : TaskBuilder
builder = record {
  name = codes "build";
  steps =
      stage_step fetch fetch true
      ∷ group_step (some (codes "second"))
      ∷ stage_step link link false
      ∷ [];
  style = Style.modern;
  mode = interactive_mode;
}

-- A console that does not accept a template with an empty placeholder, `{}`.
has_empty_placeholder : Text → Bool
has_empty_placeholder [] = false
has_empty_placeholder (x ∷ []) = false
has_empty_placeholder (x ∷ y ∷ t) = (x == b'{' && y == b'}') || has_empty_placeholder (y ∷ t)

abbrev strict : Console
unfolding has_empty_placeholder
strict = record console { accepts_template = λ t. not (has_empty_placeholder t) }

abbrev with_header : Text → TaskBuilder
with_header header = record builder { steps = group_step (some header) ∷ builder.steps }

start-IsStarted_example :
    (l : Live) × (Builder.start strict true (with_header (codes "{}")) blank ≡ some l)
    × IsStarted (with_header (codes "{}")).steps l.0
    × IsPainted strict (with_header (codes "{}")) blank l
start-IsStarted_example = start-IsStarted strict true (with_header (codes "{}")) blank

-- The header `{}` makes the start panic, and a plain one does not.
refuses_braces :
    (refuses_start strict (with_header (codes "{}")) ≡ true)
    × (refuses_start strict (with_header (codes "tests")) ≡ false)
unfolding refuses_start refuses refuses_step refuses_run autoruns divider_line line_template
    Renderer.new Style.modern has_empty_placeholder spaces repeat is_empty_text
refuses_braces = (refl, refl)

one_divider : length (Style.modern).divider ≡ 1
unfolding Style.modern
one_divider = refl

length-divider_line_example :
    length (divider_line (Renderer.new (codes "build") strategy Style.modern 3))
    ≡ 3 + divider_width (length (codes "build"))
length-divider_line_example =
    length-divider_line (codes "build") strategy Style.modern 3 one_divider

arrow_fits : length (Style.plain).prefix_active ≤ 3
unfolding Style.plain
arrow_fits = omega arith
