-- ===== src/Terminal/Scenarios/Layouts.antt =====
-- A `MultiProgress` that can be run, and where the bars of a task stand on it.
use knot_ops.Prelude.{
  map, ℕ, true, false, codes, none, some, List, [], ◌∷◌, ◌++◌, ◌≡◌, refl, ap, ◌∙◌, arith,
  if◌then◌else◌, ◌==◌, ==_iff,
}
use knot_ops.Terminal.Console.{Call, Screen}
use knot_ops.Terminal.Layout.Rows.{is_placing, has, IsMultiProgress}
use knot_ops.Terminal.Layout.Cursor.{IsLaidOut}
use knot_ops.Terminal.Style
use knot_ops.Terminal.Renderer.{interactive_mode}
use knot_ops.Terminal.Task.{Live, entry_renderer}
use knot_ops.Terminal.Builder.{TaskBuilder, stage_step, group_step, start}
use knot_ops.Terminal.Builder.Order.{bar_of, bars_of, task_bars, in_interactive_mode}
use knot_ops.Terminal.Builder.Life.{start-play-IsLaidOut}
use knot_ops.Terminal.Task.Trace.{TaskOp, run_all, skip_one, ok_all, play}
use knot_ops.Terminal.Scenarios.{console, fetch, link}

abbrev put_below : ℕ → ℕ → List ℕ → List ℕ
put_below target bar [] = bar ∷ []
put_below target bar (x ∷ xs) = if x == target then x ∷ bar ∷ xs else x ∷ put_below target bar xs

abbrev rows : List Call → List ℕ
rows [] = []
rows (Call.multi_add bar ∷ log) = rows log ++ (bar ∷ [])
rows (Call.multi_insert_after target bar ∷ log) = put_below target bar (rows log)
rows (_ ∷ log) = rows log

put_below_first :
    (target bar : ℕ) (above below : List ℕ)
    → has above target ≡ false
    → put_below target bar (above ++ (target ∷ below)) ≡ above ++ (target ∷ bar ∷ below)
put_below_first target bar [] below h = ground (arith, ==_iff target target)
put_below_first target bar (x ∷ above) below h =
    ground (arith, put_below_first target bar above below, h)

rows_kept : (k : Call) (log : List Call) → is_placing k ≡ false → rows (k ∷ log) ≡ rows log
rows_kept (Call.multi_add bar) log h = cc
rows_kept (Call.multi_insert_after target bar) log h = cc
rows_kept (Call.set_style bar t) log h = refl
rows_kept (Call.set_tick_style bar t u) log h = refl
rows_kept (Call.set_prefix bar t) log h = refl
rows_kept (Call.set_message bar t) log h = refl
rows_kept (Call.enable_steady_tick bar n) log h = refl
rows_kept (Call.finish bar) log h = refl
rows_kept (Call.finish_with_message bar t) log h = refl
rows_kept (Call.finish_and_clear bar) log h = refl
rows_kept (Call.write_line t) log h = refl

rows-IsMultiProgress : IsMultiProgress rows
rows-IsMultiProgress = record {
  empty = refl;
  added = λ bar log h. refl;
  inserted = λ target bar log above below e alone absent.
      ap (put_below target bar) e ∙ put_below_first target bar above below alone;
  kept = rows_kept;
}

-- A screen with three bars, of which the middle one is the anchor.
abbrev three_bars : Screen
three_bars = record {
  log = Call.multi_insert_after 0 2 ∷ Call.multi_add 1 ∷ Call.multi_add 0 ∷ [];
  anchor = some (record { id = 2; bar = 2 });
  node_counter = 3;
  bars = 3;
  readings = 0;
  panicked = false;
}

three_bars-IsLaidOut : IsLaidOut rows three_bars (0 ∷ 2 ∷ []) (1 ∷ [])
three_bars-IsLaidOut = record { order = refl; slot = (0 ∷ [], refl, refl); issued = refl }

abbrev builder : TaskBuilder
builder = record {
  name = codes "build";
  steps = stage_step fetch fetch true ∷ group_step none ∷ stage_step link link false ∷ [];
  style = Style.modern;
  mode = interactive_mode;
}

-- The task is started again and completed.
abbrev until_done : List TaskOp
until_done = run_all none ∷ skip_one link (codes "late") ∷ ok_all (codes "done") ∷ []

start-play-IsLaidOut_example :
    (l : Live) × (start console true (in_interactive_mode builder) three_bars ≡ some l)
    × IsLaidOut rows l.1 ((0 ∷ 2 ∷ []) ++ task_bars l.0) (1 ∷ [])
    × let l' = play console until_done l in
      if l'.0.is_finished
      then IsLaidOut rows l'.1
          ((0 ∷ 2 ∷ []) ++ bar_of l.0.renderer.strategy)
          (bars_of (map entry_renderer l.0.entries) ++ (1 ∷ []))
      else IsLaidOut rows l'.1 ((0 ∷ 2 ∷ []) ++ task_bars l.0) (1 ∷ [])
start-play-IsLaidOut_example =
    start-play-IsLaidOut rows rows-IsMultiProgress console builder true until_done three_bars
      (0 ∷ 2 ∷ []) (1 ∷ []) three_bars-IsLaidOut refl
