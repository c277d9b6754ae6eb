-- ===== src/Terminal/Builder/Refusals.antt =====
-- What a builder asks of the templates: those of its lines and dividers, and of the stages it runs.
use knot_ops.Prelude.{Bool, false, ◌||◌, ◌&&◌, spaces, any}
use knot_ops.Terminal.Console.{Console}
use knot_ops.Terminal.Style.{TaskStyle}
use knot_ops.Terminal.Renderer.{RenderMode, line_template}
use knot_ops.Terminal.Renderer.Panics.{refuses, refuses_run, group_template}
use knot_ops.Terminal.Builder.{BuilderStep, stage_step, group_step, TaskBuilder, header_name}

-- A stage that is run at the start.
unfoldable pub autoruns : BuilderStep → Bool
autoruns (stage_step id name auto_run) = auto_run
autoruns (group_step header) = false

module _ (c : Console) where
  -- The line of a stage, or the divider of a group with its header, is not accepted.
  unfoldable pub refuses_step : RenderMode → TaskStyle → BuilderStep → Bool
  refuses_step mode style (stage_step id name auto_run) = refuses c mode (line_template (spaces 3))
  refuses_step mode style (group_step header) =
      refuses c mode (group_template c (header_name header) style)

  -- The title, a step, or the spinner of a stage that is run at the start is not accepted.
  unfoldable pub refuses_start : TaskBuilder → Bool
  unfolding refuses_step autoruns
  refuses_start b =
      refuses c b.mode (line_template (spaces 0))
      || any (refuses_step b.mode b.style) b.steps
      || (any autoruns b.steps && refuses_run c b.mode b.style)
