-- ===== src/Terminal/Builder/Quiet.antt =====
-- A task of plain mode, from the builder to its last operation.
use knot_ops.Prelude.{
  Bool, true, false, Text, codes, Option, none, some, List, [], ◌∷◌, ◌++◌, ◌≡◌, refl, if◌then◌else◌,
}
use knot_ops.Terminal.Console.{Console, LayoutNode, Screen}
use knot_ops.Terminal.Renderer.{plain_mode, plain, TaskRenderer}
use knot_ops.Terminal.Renderer
use knot_ops.Terminal.Renderer.Quiet.{
  IsQuiet, IsQuiet-still, IsQuiet-then, IsQuiet-now, title-IsQuiet, wait-IsQuiet, separator-IsQuiet,
}
use knot_ops.Terminal.Task.{TaskEntry, stage, extra, entry_renderer, Live, run_each}
use knot_ops.Terminal.Task
use knot_ops.Terminal.Task.Trace.{TaskOp, play}
use knot_ops.Terminal.Task.Quiet.{ArePlain, IsPlainTask, StaysPlain}
use knot_ops.Terminal.Task.Quiet.Ops.{run_each-StaysPlain, play-StaysPlain}
use knot_ops.Terminal.Builder.{
  BuilderStep, stage_step, group_step, TaskBuilder, Built, create_head_renderer, head_renderer,
  header_name, create_child_renderer, child_renderer, auto_indent_on, indented, anchor_last, launch,
  finish_build, apply_auto_indent, prepend, build_steps, start,
}
use knot_ops.Terminal.Builder.Start.{start_each-run_each}

-- The builder, in plain mode.
abbrev pub in_plain_mode : TaskBuilder → TaskBuilder
in_plain_mode b = record b { mode = plain_mode }

-- What the loop over the steps leaves in plain mode: plain entries, and lines written.
abbrev BuildsPlain : Console → TaskBuilder → List BuilderStep → Option LayoutNode → Screen → Type 0
BuildsPlain c b steps point w =
    (built : Built) × (build_steps c (in_plain_mode b) steps point w ≡ some built)
    × ArePlain built.entries
    × IsQuiet w built.screen

module _ (c : Console) (b : TaskBuilder) where
  child : Text → TaskRenderer
  unfolding Renderer.new
  child name = Renderer.new name (plain (codes "[" ++ (b.name ++ codes "]"))) b.style 3

  build_steps-BuildsPlain :
      (steps : List BuilderStep) (point : Option LayoutNode) (w : Screen)
      → BuildsPlain c b steps point w
  unfolding build_steps create_child_renderer child_renderer prepend entry_renderer child
  build_steps-BuildsPlain [] point w = (_, refl, tt, IsQuiet-still w)
  build_steps-BuildsPlain (stage_step id name auto_run ∷ steps) point w =
      let w1 = Renderer.wait c (child name) none w in
      let (built, e, ps, q) = build_steps-BuildsPlain steps point w1 in
      (
        record built {
          entries =
              stage (record { id = id; renderer = child name; start_time = none }) ∷ built.entries;
          autostart = (if auto_run then id ∷ [] else []) ++ built.autostart;
        },
        rw (e, prepend) refl,
        (tt, ps),
        IsQuiet-then (wait-IsQuiet c (child name) none w tt) q,
      )
  build_steps-BuildsPlain (group_step header ∷ steps) point w =
      let r = child (header_name header) in
      let w1 = Renderer.separator c r w in
      let (built, e, ps, q) = build_steps-BuildsPlain steps point w1 in
      (
        record built { entries = extra r ∷ built.entries; autostart = [] ++ built.autostart },
        rw (e, prepend) refl,
        (tt, ps),
        IsQuiet-then (separator-IsQuiet c r w tt) q,
      )

  indented_plain :
      (auto_indent : Bool) (es : List TaskEntry) (point : Option LayoutNode) (w : Screen)
      → indented auto_indent (in_plain_mode b) es point w ≡ some (es, point, w)
  unfolding indented apply_auto_indent auto_indent_on
  indented_plain false es point w = refl
  indented_plain true es point w = refl

  -- A task that was started in plain mode is in plain mode, and only lines were written.
  pub start-IsPlainTask :
      (auto_indent : Bool) (w : Screen)
      → (l : Live) × (start c auto_indent (in_plain_mode b) w ≡ some l)
        × IsPlainTask l.0
        × IsQuiet w l.1
  unfolding start finish_build launch create_head_renderer head_renderer Renderer.new Task.new
      anchor_last
  start-IsPlainTask auto_indent w =
      let head = Renderer.new b.name (plain []) b.style 0 in
      let (built, e, ps, q) = build_steps-BuildsPlain b.steps none (Renderer.title c head w) in
      let l0 : Live = Task.new c head built.entries built.screen in
      let l1 : Live = run_each c built.autostart none l0 in
      let started : StaysPlain l0 l1 = run_each-StaysPlain c built.autostart none l0 (tt, ps) in
      (
        l1,
        rw (e, finish_build)
            (rw (indented_plain auto_indent built.entries built.point built.screen, launch)
              (rw (start_each-run_each c built.autostart l0) refl)),
        started.0,
        IsQuiet-then (title-IsQuiet c head w tt)
            (IsQuiet-then q (IsQuiet-then (IsQuiet-now c built.screen) started.1)),
      )

  pub start-play-IsQuiet :
      (auto_indent : Bool) (ops : List TaskOp) (w : Screen)
      → (l : Live) × (start c auto_indent (in_plain_mode b) w ≡ some l) × IsQuiet w (play c ops l).1
  start-play-IsQuiet auto_indent ops w =
      let (l, e, p, q) = start-IsPlainTask auto_indent w in
      (l, e, IsQuiet-then q (play-StaysPlain c ops l p).1)
