-- ===== src/Terminal/Builder/Start.antt =====
-- What `TaskBuilder::start` returns, and when it panics.
use knot_ops.Prelude.{
  ℕ, ◌+◌, ◌&&◌, Bool, true, false, ◌||◌, Text, Option, none, some, List, [], ◌∷◌, ◌≡◌, refl, ◌∙◌,
  arith, any, contains,
}
use knot_ops.Terminal.Console.{Console, LayoutNode, Screen, call, new_bar, now}
use knot_ops.Terminal.Layout.{insert, next_id, set_anchor}
use knot_ops.Terminal.Renderer.{
  RenderMode, interactive_mode, plain_mode, TaskRenderer, TaskRenderingStrategy, interactive, plain,
}
use knot_ops.Terminal.Renderer.Panics.{InMode, refuses_run, title_panics}
use knot_ops.Terminal.Renderer
use knot_ops.Terminal.Task.{
  Stage, TaskEntry, stage, extra, entry_renderer, ids, stages, Task, Live, run_by_id, run_each,
}
use knot_ops.Terminal.Task
use knot_ops.Terminal.Task.Inv.{IsConsistent, new-IsConsistent}
use knot_ops.Terminal.Task.Restart.{run_each-IsRestarted}
use knot_ops.Terminal.Task.Panics.{EntriesRun, run_each_panics}
use knot_ops.Terminal.Task.Trace.{run_each-IsConsistent}
use knot_ops.Terminal.Builder.{
  BuilderStep, TaskBuilder, Built, create_head_renderer, head_renderer, anchor_last, launch,
  finish_build, start_each, start,
}
use knot_ops.Terminal.Builder.Refusals.{autoruns, refuses_step, refuses_start}
use knot_ops.Terminal.Builder.Steps.{
  step_ids, Anchored, IsBuilt, indent-Places, build_steps-IsBuilt,
}

insert_panics : (bar : ℕ) (w : Screen) → (insert bar w).1.panicked ≡ w.panicked
unfolding insert next_id set_anchor call
insert_panics bar w = ground arith

-- The head is a renderer of the mode.
head-Places :
    (mode : RenderMode) (b : TaskBuilder) (w : Screen)
    → (s : TaskRenderingStrategy) × (point : Option LayoutNode) × (w' : Screen) × (head_renderer
          mode b w
        ≡ (Renderer.new b.name s b.style 0, point, w'))
      × Anchored mode point
      × InMode mode s
      × (w'.panicked ≡ w.panicked)
unfolding head_renderer new_bar
head-Places plain_mode b w = (_, _, _, refl, tt, tt, refl)
head-Places interactive_mode b w =
    (_, _, _, refl, tt, tt, insert_panics w.bars (record w { bars = w.bars + 1 }))

anchor_last_panics :
    (mode : RenderMode) (point : Option LayoutNode) (w : Screen)
    → (anchor_last mode point w).panicked ≡ w.panicked
unfolding anchor_last set_anchor
anchor_last_panics interactive_mode (some point) w = refl
anchor_last_panics interactive_mode none w = refl
anchor_last_panics plain_mode point w = refl

module _ (c : Console) where
  pub start_each-run_each :
      (todo : List Text) (l : Live) → start_each c todo l ≡ run_each c todo none l
  unfolding start_each run_each
  start_each-run_each [] l = refl
  start_each-run_each (id ∷ rest) l = start_each-run_each rest (run_by_id c id none l).1

-- A task as the builder hands it out: with the stages of the steps in order, unfinished, and with no
-- stage finished or failed.
pub record IsStarted (steps : List BuilderStep) (t : Task) : Type 0 where
  pub consistent : IsConsistent t
  pub live : t.is_finished ≡ false
  pub in_order : ids t.entries ≡ step_ids steps
  pub calm : t.failed_stages ≡ []
  pub fresh : (k : Text) → contains t.finished_stages k ≡ false

-- When starting a builder panics; the entries of the task run with the outcome of its style.
pub record IsPainted (c : Console) (b : TaskBuilder) (w : Screen) (l : Live) : Type 0 where
  pub panics : l.1.panicked ≡ (w.panicked || refuses_start c b)
  pub runs : EntriesRun c (refuses_run c b.mode b.style) l.0.entries

module _ (c : Console) (b : TaskBuilder) (head : TaskRenderer) (es : List TaskEntry) (w : Screen)
    (built : Built) (in_order : ids es ≡ step_ids b.steps) where
  new-IsStarted :
      (w0 : Screen)
      → IsBuilt c b w0 b.steps built
      → EntriesRun c (refuses_run c b.mode b.style) es
      → w.panicked ≡ built.screen.panicked
      → let l = start_each c built.autostart (Task.new c head es w) in
        IsStarted b.steps l.0
        × EntriesRun c (refuses_run c b.mode b.style) l.0.entries
        × (l.1.panicked ≡ (
            w0.panicked
            || any (refuses_step c b.mode b.style) b.steps
            || (any autoruns b.steps && refuses_run c b.mode b.style)))
  unfolding Task.new contains now
  new-IsStarted w0 v entries_run same =
      let l = Task.new c head es w in
      let todo = built.autostart in
      let known : (k : Text) → contains todo k ≡ true → contains (ids es) k ≡ true =
        λ k m. rw in_order (v.known k m) in
      let h = run_each-IsRestarted c none todo l known refl refl in
      let p =
        run_each_panics c (refuses_run c b.mode b.style) none todo l known refl refl entries_run in
      rw (start_each-run_each c todo l) (
        record {
          consistent = run_each-IsConsistent c todo none l (new-IsConsistent c head es w);
          live = h.live;
          in_order = h.same_ids ∙ in_order;
          calm = h.calm;
          fresh = λ k. ground (arith, h.reset k);
        },
        p.runs,
        p.panics ∙ ground (arith, same, v.panics, v.started),
      )

-- In both modes, with a final spacer or without, TaskBuilder.start gives an unfinished, consistent
-- task whose stages are those of the steps, in order, with none of them finished or failed; the
-- builder's own unwraps never panic, and a template panics exactly if one did before, or, in
-- interactive mode, if indicatif does not accept the template of the title, that of a stage or the
-- divider of a group with its header, or if a stage is run at the start and the style cannot be
-- run: its template with the arrow is not accepted, or its spinner has less than two ticks. A run
-- of an entry of the task panics exactly if a template did before or, in interactive mode, the
-- style cannot be run.
pub start-IsStarted :
    (c : Console) (auto_indent : Bool) (b : TaskBuilder) (w : Screen)
    → (l : Live) × (start c auto_indent b w ≡ some l) × IsStarted b.steps l.0 × IsPainted c b w l
unfolding start finish_build launch create_head_renderer refuses_start
start-IsStarted c auto_indent b w =
    let (s, point, w1, e0, anchored, m, same0) = head-Places b.mode b w in
    let head = Renderer.new b.name s b.style 0 in
    let w2 = Renderer.title c head w1 in
    let (built, e, v) = build_steps-IsBuilt c b b.steps point w2 anchored in
    let (es, point', w3, e', same, same3, entries_run) =
      indent-Places c auto_indent b built.entries built.point built.screen v.anchored v.runs in
    let w4 = anchor_last b.mode point' w3 in
    let (started, runs, panics) =
      new-IsStarted c b head es w4 built (same ∙ v.in_order) w2 v entries_run
        (anchor_last_panics b.mode point' w3 ∙ same3) in
    (
      start_each c built.autostart (Task.new c head es w4),
      rw e0 (rw (e, finish_build) (rw (e', launch) refl)),
      started,
      record {
        panics = panics ∙ ground (arith, same0, title_panics c b.mode b.name s b.style 0 w1 m);
        runs = runs;
      },
    )
