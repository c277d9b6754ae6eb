-- ===== src/Terminal/Builder.antt =====
-- task/builder.rs: from a list of stages and groups to a task on the screen. `none` is a panic of an
-- `unwrap` in this file; a panic at a template is in the screen.
pub mod Refusals
pub mod Steps
pub mod Start
pub mod Quiet
pub mod Order
pub mod Life
use knot_ops.Prelude.{
  ℕ, Bool, true, false, Text, codes, Option, none, some, List, [], ◌∷◌, ◌++◌, if◌then◌else◌,
}
use knot_ops.Terminal.Console.{Console, LayoutNode, Call, Screen, call, new_bar}
use knot_ops.Terminal.Style.{TaskStyle}
use knot_ops.Terminal.Layout.{insert, insert_after, set_anchor}
use knot_ops.Terminal.Renderer.{
  RenderMode, interactive_mode, plain_mode, TaskRenderer, interactive, plain,
}
use knot_ops.Terminal.Renderer
use knot_ops.Terminal.Task.{Stage, TaskEntry, stage, extra, Task, Live, run_by_id}
use knot_ops.Terminal.Task

pub data BuilderStep : Type 0 where
  stage_step : Text → Text → Bool → BuilderStep
  group_step : Option Text → BuilderStep

pub record TaskBuilder : Type 0 where
  pub name : Text
  pub steps : List BuilderStep
  pub style : TaskStyle
  pub mode : RenderMode

unfoldable pub new : Text → TaskStyle → RenderMode → TaskBuilder
new name style mode = record { name = name; steps = []; style = style; mode = mode }

unfoldable pub with_stage : Text → Text → Bool → TaskBuilder → TaskBuilder
with_stage id name auto_run b = record b { steps = b.steps ++ (stage_step id name auto_run ∷ []) }

unfoldable pub with_group : Option Text → TaskBuilder → TaskBuilder
with_group header b = record b { steps = b.steps ++ (group_step header ∷ []) }

head_renderer : RenderMode → TaskBuilder → Screen → TaskRenderer × Option LayoutNode × Screen
head_renderer plain_mode b w = (Renderer.new b.name (plain []) b.style 0, none, w)
head_renderer interactive_mode b w =
    let (bar, w1) = new_bar w in
    let (head_bar, w2) = insert bar w1 in
    (Renderer.new b.name (interactive head_bar []) b.style 0, some head_bar, w2)

unfoldable pub create_head_renderer :
    TaskBuilder → Screen → TaskRenderer × Option LayoutNode × Screen
unfolding head_renderer
create_head_renderer b w = head_renderer b.mode b w

-- A renderer with its own bar, below the insertion point, which moves to it.
child_renderer :
    RenderMode
    → TaskBuilder
    → Text
    → Option LayoutNode
    → ℕ
    → Screen
    → Option (TaskRenderer × Option LayoutNode × Screen)
child_renderer plain_mode b child_name point indent_spaces w = some (
  Renderer.new child_name (plain (codes "[" ++ (b.name ++ codes "]"))) b.style indent_spaces,
  point,
  w,
)
child_renderer interactive_mode b child_name none indent_spaces w = none
child_renderer interactive_mode b child_name (some point) indent_spaces w =
    let (bar, w1) = new_bar w in
    let (node, w2) = insert_after point bar w1 in
    some (Renderer.new child_name (interactive node []) b.style indent_spaces, some node, w2)

unfoldable pub create_child_renderer :
    TaskBuilder
    → Text
    → Option LayoutNode
    → ℕ
    → Screen
    → Option (TaskRenderer × Option LayoutNode × Screen)
unfolding child_renderer
create_child_renderer b child_name point indent_spaces w =
    child_renderer b.mode b child_name point indent_spaces w

-- The spacer below the last entry.
auto_indent_on :
    RenderMode
    → TaskBuilder
    → List TaskEntry
    → Option LayoutNode
    → ℕ
    → Screen
    → Option (List TaskEntry × Option LayoutNode × Screen)
auto_indent_on plain_mode b entries point indent_spaces w = some (entries, point, w)
auto_indent_on interactive_mode b entries none indent_spaces w = none
auto_indent_on interactive_mode b entries (some point) indent_spaces w =
    let (bar, w1) = new_bar w in
    let (spacer, w2) = insert_after point bar (call (Call.set_style bar (codes "{msg}")) w1) in
    some (
      entries ++ (extra (Renderer.new [] (interactive spacer []) b.style indent_spaces) ∷ []),
      some spacer,
      call (Call.finish_with_message spacer.bar (codes " ")) w2,
    )

unfoldable pub apply_auto_indent :
    TaskBuilder
    → List TaskEntry
    → Option LayoutNode
    → ℕ
    → Screen
    → Option (List TaskEntry × Option LayoutNode × Screen)
unfolding auto_indent_on
apply_auto_indent b entries point indent_spaces w =
    auto_indent_on b.mode b entries point indent_spaces w

abbrev pub header_name : Option Text → Text
header_name none = []
header_name (some header) = header

-- The entries, and the stages to start, in the order of the steps.
pub record Built : Type 0 where
  pub entries : List TaskEntry
  pub autostart : List Text
  pub point : Option LayoutNode
  pub screen : Screen

unfoldable pub prepend : TaskEntry → List Text → Option Built → Option Built
prepend e started none = none
prepend e started (some rest) =
    some (record rest { entries = e ∷ rest.entries; autostart = started ++ rest.autostart })

anchor_last : RenderMode → Option LayoutNode → Screen → Screen
anchor_last interactive_mode (some point) w = set_anchor point w
anchor_last interactive_mode none w = w
anchor_last plain_mode point w = w

unfoldable pub indented :
    Bool
    → TaskBuilder
    → List TaskEntry
    → Option LayoutNode
    → Screen
    → Option (List TaskEntry × Option LayoutNode × Screen)
indented true b entries point w = apply_auto_indent b entries point 3 w
indented false b entries point w = some (entries, point, w)

module _ (c : Console) where
  -- `for step in steps` of `start`
  unfoldable pub build_steps :
      TaskBuilder → List BuilderStep → Option LayoutNode → Screen → Option Built
  unfolding create_child_renderer prepend
  build_steps b [] point w =
      some (record { entries = []; autostart = []; point = point; screen = w })
  build_steps b (stage_step id name auto_run ∷ steps) point w =
      elim (create_child_renderer b name point 3 w) [
        | none ↦ none
        | some (r, point', w1) ↦
            prepend (stage (record { id = id; renderer = r; start_time = none }))
              (if auto_run then id ∷ [] else [])
              (build_steps b steps point' (Renderer.wait c r none w1))
      ]
  build_steps b (group_step header ∷ steps) point w =
      elim (create_child_renderer b (header_name header) point 3 w) [
        | none ↦ none
        | some (r, point', w1) ↦
            prepend (extra r) [] (build_steps b steps point' (Renderer.separator c r w1))
      ]

  -- `for id in autostart`
  unfoldable pub start_each : List Text → Live → Live
  start_each [] l = l
  start_each (id ∷ rest) l = start_each rest (run_by_id c id none l).1

  -- From the entries on.
  launch :
      TaskBuilder
      → TaskRenderer
      → List Text
      → Option (List TaskEntry × Option LayoutNode × Screen)
      → Option Live
  unfolding anchor_last
  launch b head autostart none = none
  launch b head autostart (some (entries, point, w)) =
      some (start_each autostart (Task.new c head entries (anchor_last b.mode point w)))

  finish_build : Bool → TaskBuilder → TaskRenderer → Option Built → Option Live
  unfolding launch indented
  finish_build auto_indent b head none = none
  finish_build auto_indent b head (some built) =
      launch b head built.autostart (indented auto_indent b built.entries built.point built.screen)

  unfoldable pub start : Bool → TaskBuilder → Screen → Option Live
  unfolding finish_build create_head_renderer
  start auto_indent b w =
      let (head, point, w1) = create_head_renderer b w in
      finish_build auto_indent b head (build_steps b b.steps point (Renderer.title c head w1))
