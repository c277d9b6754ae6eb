-- ===== src/Terminal/Renderer/Panics.antt =====
-- At which templates the renderer panics.
use knot_ops.Prelude.{
  ℕ, ◌-◌, Bool, false, not, ◌||◌, Text, codes, spaces, length, Option, none, List, [], ◌∷◌, ◌++◌,
  ltb, ◌≡◌, arith,
}
use knot_ops.Terminal.Console.{Console, dim, Screen, call, call_all}
use knot_ops.Terminal.Style.{TaskStyle}
use knot_ops.Terminal.Renderer.Format.{
  RenderMode, interactive_mode, plain_mode, TaskRenderingStrategy, interactive, plain, TaskRenderer,
  new, line_template, divider_line, running_prefix,
}
use knot_ops.Terminal.Renderer

-- A strategy of a mode.
abbrev pub InMode : RenderMode → TaskRenderingStrategy → Type 0
InMode interactive_mode (interactive node inserted) = Unit {0}
InMode plain_mode (plain ci_prefix) = Unit {0}
InMode _ _ = ⊥

module _ (c : Console) where
  -- Only interactive mode uses templates.
  unfoldable pub refuses : RenderMode → Text → Bool
  refuses interactive_mode template = not (c.accepts_template template)
  refuses plain_mode template = false

  -- A stage cannot be run: the template with the arrow is not accepted, or there are not two ticks.
  unfoldable pub refuses_run : RenderMode → TaskStyle → Bool
  refuses_run interactive_mode style =
      not (
        c.accepts_template (
          (spaces (3 - length style.prefix_active) ++ c.paint dim style.prefix_active)
          ++ codes "{spinner:.cyan}  {msg}"))
      || ltb (c.tick_count style.run_frame) 2
  refuses_run plain_mode style = false

  title_on_panics :
      (mode : RenderMode) (s : TaskRenderingStrategy) (r : TaskRenderer) (w : Screen)
      → InMode mode s
      → (Renderer.title_on c s r w).panicked
        ≡ (w.panicked || refuses mode (line_template r.baked_indent))
  unfolding Renderer.title_on Renderer.write_plain_line call call_all refuses
  title_on_panics interactive_mode (interactive node inserted) r w h = ground arith
  title_on_panics plain_mode (plain ci_prefix) r w h = ground arith
  title_on_panics interactive_mode (plain ci_prefix) r w h = absurd h
  title_on_panics plain_mode (interactive node inserted) r w h = absurd h

  wait_on_panics :
      (mode : RenderMode) (s : TaskRenderingStrategy) (r : TaskRenderer) (msg : Text) (w : Screen)
      → InMode mode s
      → (Renderer.wait_on c s r msg w).panicked
        ≡ (w.panicked || refuses mode (line_template r.baked_indent))
  unfolding Renderer.wait_on Renderer.write_plain_line call call_all refuses
  wait_on_panics interactive_mode (interactive node inserted) r msg w h = ground arith
  wait_on_panics plain_mode (plain ci_prefix) r msg w h = ground arith
  wait_on_panics interactive_mode (plain ci_prefix) r msg w h = absurd h
  wait_on_panics plain_mode (interactive node inserted) r msg w h = absurd h

  separator_on_panics :
      (mode : RenderMode) (s : TaskRenderingStrategy) (r : TaskRenderer) (w : Screen)
      → InMode mode s
      → (Renderer.separator_on c s r w).panicked
        ≡ (w.panicked || refuses mode (c.paint dim (divider_line r)))
  unfolding Renderer.separator_on Renderer.write_plain_line call call_all refuses
  separator_on_panics interactive_mode (interactive node inserted) r w h = ground arith
  separator_on_panics plain_mode (plain ci_prefix) r w h = ground arith
  separator_on_panics interactive_mode (plain ci_prefix) r w h = absurd h
  separator_on_panics plain_mode (interactive node inserted) r w h = absurd h

  run_on_panics :
      (mode : RenderMode) (s : TaskRenderingStrategy) (name : Text) (s0 : TaskRenderingStrategy)
      (style : TaskStyle) (msg : Option Text) (w : Screen)
      → InMode mode s
      → (Renderer.run_on c s (new name s0 style 3) msg w).panicked
        ≡ (w.panicked || refuses_run mode style)
  unfolding Renderer.run_on Renderer.write_plain_line call call_all refuses_run running_prefix new
  run_on_panics interactive_mode (interactive node inserted) name s0 style msg w h = ground arith
  run_on_panics plain_mode (plain ci_prefix) name s0 style msg w h = ground arith
  run_on_panics interactive_mode (plain ci_prefix) name s0 style msg w h = absurd h
  run_on_panics plain_mode (interactive node inserted) name s0 style msg w h = absurd h

  -- `bad` tells whether running the renderer panics.
  abbrev pub RunsWith : Bool → TaskRenderer → Type 0
  RunsWith bad r =
      (msg : Option Text) (w : Screen) → (Renderer.run c r msg w).panicked ≡ (w.panicked || bad)

  pub new-RunsWith :
      (mode : RenderMode) (name : Text) (s : TaskRenderingStrategy) (style : TaskStyle)
      → InMode mode s
      → RunsWith (refuses_run mode style) (new name s style 3)
  unfolding Renderer.run new
  new-RunsWith mode name s style h msg w = run_on_panics mode s name s style msg w h

  abbrev pub AllRunWith : Bool → List TaskRenderer → Type 0
  AllRunWith bad [] = Unit {0}
  AllRunWith bad (r ∷ rs) = RunsWith bad r × AllRunWith bad rs

  pub title_panics :
      (mode : RenderMode) (name : Text) (s : TaskRenderingStrategy) (style : TaskStyle) (n : ℕ)
      (w : Screen)
      → InMode mode s
      → (Renderer.title c (new name s style n) w).panicked
        ≡ (w.panicked || refuses mode (line_template (spaces n)))
  unfolding Renderer.title new
  title_panics mode name s style n w h = title_on_panics mode s (new name s style n) w h

  pub wait_panics :
      (mode : RenderMode) (name : Text) (s : TaskRenderingStrategy) (style : TaskStyle) (n : ℕ)
      (w : Screen)
      → InMode mode s
      → (Renderer.wait c (new name s style n) none w).panicked
        ≡ (w.panicked || refuses mode (line_template (spaces n)))
  unfolding Renderer.wait new
  wait_panics mode name s style n w h = wait_on_panics mode s (new name s style n) _ w h

  -- The divider of a group, with its header.
  abbrev pub group_template : Text → TaskStyle → Text
  group_template header style = c.paint dim (divider_line (new header (plain []) style 3))

  pub separator_panics :
      (mode : RenderMode) (header : Text) (s : TaskRenderingStrategy) (style : TaskStyle)
      (w : Screen)
      → InMode mode s
      → (Renderer.separator c (new header s style 3) w).panicked
        ≡ (w.panicked || refuses mode (group_template header style))
  unfolding Renderer.separator divider_line new
  separator_panics mode header s style w h = separator_on_panics mode s (new header s style 3) w h
