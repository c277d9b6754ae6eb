-- ===== src/Terminal/Engine.antt =====
-- engine.rs: the entry point. `std::env::var("CI").is_ok()` and `stdout().is_terminal()` are arguments.
-- The layout and the writer of an engine are its `Screen`.
pub mod Quiet
use knot_ops.Prelude.{Bool, not, ◌||◌, Text, codes, none, [], if◌then◌else◌}
use knot_ops.Terminal.Console.{Console, Call, Screen, call, new_bar}
use knot_ops.Terminal.Style.{TaskStyle, modern, plain as plain_style}
use knot_ops.Terminal.Layout.{insert}
use knot_ops.Terminal.Renderer.{
  RenderMode, interactive_mode, plain_mode, TaskRenderingStrategy, interactive, plain,
}
use knot_ops.Terminal.Renderer
use knot_ops.Terminal.Step.{Step}
use knot_ops.Terminal.Step
use knot_ops.Terminal.Builder.{TaskBuilder}
use knot_ops.Terminal.Builder
use knot_ops.Terminal.Sequence.{TaskSequenceBuilder, new_builder}

pub record TaskEngine : Type 0 where
  pub style : TaskStyle
  pub mode : RenderMode

unfoldable pub detect_mode : Bool → Bool → RenderMode
detect_mode ci is_terminal = if ci || not is_terminal then plain_mode else interactive_mode

unfoldable pub detect_style : RenderMode → TaskStyle
detect_style interactive_mode = modern
detect_style plain_mode = plain_style

-- `new`, `with_multi`, `inner_new`
unfoldable pub new : Bool → Bool → TaskEngine
unfolding detect_mode
new ci is_terminal =
    let mode = detect_mode ci is_terminal in record { style = detect_style mode; mode = mode }

unfoldable pub with_render_mode : RenderMode → TaskEngine → TaskEngine
with_render_mode mode e = record { style = detect_style mode; mode = mode }

unfoldable pub with_style : TaskStyle → TaskEngine → TaskEngine
with_style style e = record e { style = style }

space_on : RenderMode → Screen → Screen
space_on plain_mode w = w
space_on interactive_mode w =
    let (bar, w1) = new_bar w in
    let (node, w2) = insert bar (call (Call.set_style bar (codes "{msg}")) w1) in
    call (Call.finish_with_message bar (codes " ")) w2

unfoldable pub space : TaskEngine → Screen → Screen
unfolding space_on
space e w = space_on e.mode w

strategy_on : RenderMode → Screen → TaskRenderingStrategy × Screen
strategy_on plain_mode w = (plain [], w)
strategy_on interactive_mode w =
    let (bar, w1) = new_bar w in let (node, w2) = insert bar w1 in (interactive node [], w2)

unfoldable pub step : Console → TaskEngine → Text → Bool → Screen → Step × Screen
unfolding strategy_on
step c e name auto_run w =
    let (strategy, w1) = strategy_on e.mode w in
    let (s, w2) = Step.new c (Renderer.new name strategy e.style 0) w1 in
    if auto_run then Step.run c s none w2 else (s, w2)

unfoldable pub task : TaskEngine → Text → TaskBuilder
task e name = Builder.new name e.style e.mode

unfoldable pub sequence : TaskEngine → Text → TaskSequenceBuilder
unfolding task
sequence e name = new_builder (task e name)
