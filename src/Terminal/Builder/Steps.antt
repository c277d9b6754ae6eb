-- ===== src/Terminal/Builder/Steps.antt =====
-- What the loop over the steps of a `TaskBuilder` builds, and when it panics.
use knot_ops.Prelude.{
  ℕ, ◌+◌, Bool, true, false, not, ◌||◌, Text, Option, none, some, List, [], ◌∷◌, ◌++◌, ◌≡◌, refl,
  sym, ap, arith, any, is_empty, contains, text_eq_iff, if◌then◌else◌,
}
use knot_ops.Terminal.Console.{Console, LayoutNode, Screen, call, new_bar}
use knot_ops.Terminal.Layout.{insert_after, next_id, set_anchor}
use knot_ops.Terminal.Renderer.{
  RenderMode, interactive_mode, plain_mode, TaskRenderer, TaskRenderingStrategy, interactive, plain,
}
use knot_ops.Terminal.Renderer.Panics.{
  InMode, RunsWith, refuses_run, new-RunsWith, wait_panics, separator_panics,
}
use knot_ops.Terminal.Renderer
use knot_ops.Terminal.Task.{TaskEntry, stage, extra, entry_renderer, ids, stages}
use knot_ops.Terminal.Task.Panics.{EntriesRun}
use knot_ops.Terminal.Builder.{
  BuilderStep, stage_step, group_step, TaskBuilder, Built, create_child_renderer, child_renderer,
  auto_indent_on, indented, header_name, apply_auto_indent, prepend, build_steps,
}
use knot_ops.Terminal.Builder.Refusals.{autoruns, refuses_step}

-- The ids of the stages among the steps.
unfoldable pub step_ids : List BuilderStep → List Text
step_ids [] = []
step_ids (stage_step id name auto_run ∷ steps) = id ∷ step_ids steps
step_ids (group_step header ∷ steps) = step_ids steps

-- In interactive mode there is an insertion point.
abbrev pub Anchored : RenderMode → Option LayoutNode → Type 0
Anchored plain_mode point = Unit {0}
Anchored interactive_mode none = ⊥
Anchored interactive_mode (some node) = Unit {0}

-- What the loop over the steps builds: entries with the ids of the steps, and some of these to start;
-- and when it panics.
pub record IsBuilt (c : Console) (b : TaskBuilder) (w : Screen) (steps : List BuilderStep)
    (built : Built) : Type 0 where
  pub in_order : ids built.entries ≡ step_ids steps
  pub known : (k : Text) → contains built.autostart k ≡ true → contains (step_ids steps) k ≡ true
  pub anchored : Anchored b.mode built.point
  pub panics : built.screen.panicked ≡ (w.panicked || any (refuses_step c b.mode b.style) steps)
  pub started : not (is_empty built.autostart) ≡ any autoruns steps
  pub runs : EntriesRun c (refuses_run c b.mode b.style) built.entries

insert_after_panics :
    (target : LayoutNode) (bar : ℕ) (w : Screen)
    → (insert_after target bar w).1.panicked ≡ w.panicked
unfolding insert_after next_id set_anchor call
insert_after_panics target bar w = ground arith

-- A child is made, with a renderer of the mode, and the insertion point is kept.
abbrev Places :
    RenderMode
    → TaskBuilder
    → Text
    → ℕ
    → Screen
    → Option (TaskRenderer × Option LayoutNode × Screen)
    → Type 0
Places mode b name n w r =
    (s : TaskRenderingStrategy) × (point : Option LayoutNode) × (w' : Screen) × (r
      ≡ some (Renderer.new name s b.style n, point, w'))
    × Anchored mode point
    × InMode mode s
    × (w'.panicked ≡ w.panicked)

child-Places :
    (mode : RenderMode) (b : TaskBuilder) (name : Text) (point : Option LayoutNode) (n : ℕ)
    (w : Screen)
    → Anchored mode point
    → Places mode b name n w (child_renderer mode b name point n w)
unfolding child_renderer new_bar
child-Places plain_mode b name point n w h = (_, _, _, refl, tt, tt, refl)
child-Places interactive_mode b name none n w h = absurd h
child-Places interactive_mode b name (some node) n w h =
    (_, _, _, refl, tt, tt, insert_after_panics node w.bars (record w { bars = w.bars + 1 }))

pub ids-append_extra :
    (es : List TaskEntry) (r : TaskRenderer) → ids (es ++ (extra r ∷ [])) ≡ ids es
unfolding ids stages
ids-append_extra [] r = refl
ids-append_extra (stage s ∷ es) r = ap (λ l. s.id ∷ l) (ids-append_extra es r)
ids-append_extra (extra x ∷ es) r = ids-append_extra es r

entries-append_extra :
    (c : Console) (bad : Bool) (es : List TaskEntry) (r : TaskRenderer)
    → EntriesRun c bad es
    → RunsWith c bad r
    → EntriesRun c bad (es ++ (extra r ∷ []))
unfolding entry_renderer
entries-append_extra c bad [] r h k = (k, tt)
entries-append_extra c bad (stage s ∷ es) r h k = (h.0, entries-append_extra c bad es r h.1 k)
entries-append_extra c bad (extra x ∷ es) r h k = (h.0, entries-append_extra c bad es r h.1 k)

-- The spacer, if there is one, keeps the ids, and the outcome of running the entries.
abbrev pub Indents :
    Console
    → TaskBuilder
    → List TaskEntry
    → Screen
    → Option (List TaskEntry × Option LayoutNode × Screen)
    → Type 0
Indents c b es w r =
    (es' : List TaskEntry) × (point : Option LayoutNode) × (w' : Screen) × (r
      ≡ some (es', point, w'))
    × (ids es' ≡ ids es)
    × (w'.panicked ≡ w.panicked)
    × EntriesRun c (refuses_run c b.mode b.style) es'

spacer-Places :
    (c : Console) (mode : RenderMode) (b : TaskBuilder) (es : List TaskEntry)
    (point : Option LayoutNode) (w : Screen)
    → mode ≡ b.mode
    → Anchored mode point
    → EntriesRun c (refuses_run c b.mode b.style) es
    → Indents c b es w (auto_indent_on mode b es point 3 w)
unfolding auto_indent_on new_bar call
spacer-Places c plain_mode b es point w m h k = (es, point, w, refl, refl, refl, k)
spacer-Places c interactive_mode b es none w m h k = absurd h
spacer-Places c interactive_mode b es (some node) w m h k = (
  _,
  _,
  _,
  refl,
  ids-append_extra es _,
  insert_after_panics node w.bars _,
  entries-append_extra c (refuses_run c b.mode b.style) es _ k
      (rw (sym m) (new-RunsWith c interactive_mode [] (interactive _ []) b.style tt)),
)

pub indent-Places :
    (c : Console) (auto_indent : Bool) (b : TaskBuilder) (es : List TaskEntry)
    (point : Option LayoutNode) (w : Screen)
    → Anchored b.mode point
    → EntriesRun c (refuses_run c b.mode b.style) es
    → Indents c b es w (indented auto_indent b es point w)
unfolding indented apply_auto_indent
indent-Places c false b es point w h k = (es, point, w, refl, refl, refl, k)
indent-Places c true b es point w h k = spacer-Places c b.mode b es point w refl h k

module _ (c : Console) (b : TaskBuilder) where
  pub build_steps-IsBuilt :
      (steps : List BuilderStep) (point : Option LayoutNode) (w : Screen)
      → Anchored b.mode point
      → (built : Built) × (build_steps c b steps point w ≡ some built) × IsBuilt c b w steps built
  unfolding build_steps create_child_renderer prepend step_ids ids stages contains refuses_step
      autoruns entry_renderer
  build_steps-IsBuilt [] point w h = (
    _,
    refl,
    record {
      in_order = refl;
      known = λ k e. e;
      anchored = h;
      panics = ground arith;
      started = refl;
      runs = tt;
    },
  )
  build_steps-IsBuilt (stage_step id name auto_run ∷ steps) point w h =
      let (s, point', w1, e, h', m, same) = child-Places b.mode b name point 3 w h in
      let r = Renderer.new name s b.style 3 in
      let (built, e', v) = build_steps-IsBuilt steps point' (Renderer.wait c r none w1) h' in
      (
        record built {
          entries = stage (record { id = id; renderer = r; start_time = none }) ∷ built.entries;
          autostart = (if auto_run then id ∷ [] else []) ++ built.autostart;
        },
        rw (e, build_steps) (rw (e', prepend) refl),
        record {
          in_order = ap (λ l. id ∷ l) v.in_order;
          known = λ k m. ground (arith, v.known k, text_eq_iff id k);
          anchored = v.anchored;
          panics = ground (arith, v.panics, wait_panics c b.mode name s b.style 3 w1 m, same);
          started = ground (arith, v.started);
          runs = (new-RunsWith c b.mode name s b.style m, v.runs);
        },
      )
  build_steps-IsBuilt (group_step header ∷ steps) point w h =
      let name = header_name header in
      let (s, point', w1, e, h', m, same) = child-Places b.mode b name point 3 w h in
      let r = Renderer.new name s b.style 3 in
      let (built, e', v) = build_steps-IsBuilt steps point' (Renderer.separator c r w1) h' in
      (
        record built { entries = extra r ∷ built.entries; autostart = [] ++ built.autostart },
        rw (e, build_steps) (rw (e', prepend) refl),
        record {
          in_order = v.in_order;
          known = v.known;
          anchored = v.anchored;
          panics = ground (arith, v.panics, separator_panics c b.mode name s b.style w1 m, same);
          started = v.started;
          runs = (new-RunsWith c b.mode name s b.style m, v.runs);
        },
      )
