-- ===== src/Terminal/Engine/Quiet.antt =====
-- engine.rs: tasks in CI, or without a terminal.
use knot_ops.Prelude.{Bool, true, not, ◌||◌, Text, some, List, ◌≡◌, ap, ◌∙◌, if_true}
use knot_ops.Terminal.Console.{Console, Screen}
use knot_ops.Terminal.Style.{TaskStyle}
use knot_ops.Terminal.Renderer.{RenderMode, plain_mode}
use knot_ops.Terminal.Renderer.Quiet.{IsQuiet}
use knot_ops.Terminal.Task.{Live}
use knot_ops.Terminal.Task.Trace.{TaskOp, play}
use knot_ops.Terminal.Builder.{BuilderStep, TaskBuilder, start}
use knot_ops.Terminal.Builder
use knot_ops.Terminal.Builder.Quiet.{start-play-IsQuiet}
use knot_ops.Terminal.Sequence.{LiveSequence, new_builder}
use knot_ops.Terminal.Sequence
use knot_ops.Terminal.Sequence.Ids.{ChainStep, chain}
use knot_ops.Terminal.Sequence.Course.{SequenceOp, play_all}
use knot_ops.Terminal.Sequence.Quiet.{start-play_all-IsQuiet, chain_mode}
use knot_ops.Terminal.Engine.{detect_mode, new, with_style, task, sequence}

-- What the engine of a process makes of a list of steps: a builder for the task.
abbrev pub engine_task : Bool → Bool → TaskStyle → Text → List BuilderStep → TaskBuilder
engine_task ci is_terminal style name steps =
    record (task (with_style style (new ci is_terminal)) name) { steps = steps }

-- With the CI variable, or without a terminal, a task that the engine makes of any steps can be
-- started, and it and any operations on it only write lines: no bar is created, no template
-- panics, and neither the anchor nor the node counter changes.
pub engine_task-IsQuiet :
    (c : Console) (ci is_terminal : Bool) (style : TaskStyle) (name : Text)
    (steps : List BuilderStep) (auto_indent : Bool) (ops : List TaskOp) (w : Screen)
    → (ci || not is_terminal) ≡ true
    → (l : Live) × (start c auto_indent (engine_task ci is_terminal style name steps) w ≡ some l)
      × IsQuiet w (play c ops l).1
unfolding task with_style new detect_mode Builder.new
engine_task-IsQuiet c ci is_terminal style name steps auto_indent ops w h =
    let b : RenderMode → TaskBuilder =
      λ mode. record { name = name; steps = steps; style = style; mode = mode } in
    let (l, e, q) = start-play-IsQuiet c (b plain_mode) auto_indent ops w in
    (l, ap (λ mode. start c auto_indent (b mode) w) (if_true _ _ h) ∙ e, q)

-- With the CI variable, or without a terminal, a sequence that the engine makes and any chain of
-- with_stage and with_group calls extends can be started, and it and any calls of ok, skip and
-- fail on it only write lines: no bar is created, no template panics, and neither the anchor nor
-- the node counter changes.
pub engine_sequence-IsQuiet :
    (c : Console) (ci is_terminal : Bool) (style : TaskStyle) (name : Text) (cs : List ChainStep)
    (auto_indent : Bool) (ops : List SequenceOp) (w : Screen)
    → (ci || not is_terminal) ≡ true
    → let b = chain cs (sequence (with_style style (new ci is_terminal)) name) in
      (l : LiveSequence) × (Sequence.start c auto_indent b w ≡ some l)
      × IsQuiet w (play_all c ops l).1
unfolding sequence task with_style new detect_mode Builder.new new_builder
engine_sequence-IsQuiet c ci is_terminal style name cs auto_indent ops w h =
    let b = sequence (with_style style (new ci is_terminal)) name in
    start-play_all-IsQuiet c auto_indent (chain cs b) ops w (chain_mode cs b ∙ if_true _ _ h)
