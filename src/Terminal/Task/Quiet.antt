-- ===== src/Terminal/Task/Quiet.antt =====
-- A task in plain mode: its operations only write lines.
pub mod Ops
use knot_ops.Prelude.{
  ℕ, Bool, true, false, not, Text, codes, Option, none, some, List, [], ◌∷◌, ◌≡◌, refl, sym, ap,
  subst, ◌∙◌, inl, inr, Bool-cases, if_true, if_false, if◌then◌else◌, is_empty, text_eq,
}
use knot_ops.Terminal.Console.{Console, LayoutNode, Screen, now}
use knot_ops.Terminal.Report.{ErrorReport}
use knot_ops.Terminal.Renderer.{TaskRenderer, TaskRenderingStrategy, interactive, plain}
use knot_ops.Terminal.Renderer
use knot_ops.Terminal.Renderer.Quiet.{
  IsQuiet, IsQuiet-still, IsQuiet-then, IsQuiet-now, IsPlainStrategy, IsPlain, run-IsQuiet,
  skip-IsQuiet, success-IsQuiet, fail-IsQuiet, fail_insert-IsQuiet, finish_plain, clear_plain,
}
use knot_ops.Terminal.Task.Stages.{
  Stage, TaskEntry, stage, extra, entry_renderer, find_stage, set_stage, ids, started_or_now,
}
use knot_ops.Terminal.Task.Stages
use knot_ops.Terminal.Task.State.{
  Task, Live, clear_entries, fall_back, clear_children, finish_entries, finish_children,
  set_completed, set_failed_and_insert, set_failed_and_freeze, set_failed_and_clear, all_finished,
  update_state,
}
use knot_ops.Terminal.Task.Ops.{
  mark_running, mark_finished, mark_failed, run_stage, fail_stage, run_by_id, ok_by_id, fail_by_id,
  skip_by_id, ok_each, fail_each, run_each, skip_each, perform_ok, perform_fail, perform_run,
  perform_skip,
}
use knot_ops.Terminal.Task.Trace.{
  TaskOp, run_one, ok_one, fail_one, skip_one, run_all, ok_all, fail_all, skip_all, apply, play,
}

abbrev pub ArePlain : List TaskEntry → Type 0
ArePlain [] = Unit {0}
ArePlain (e ∷ es) = IsPlain (entry_renderer e) × ArePlain es

-- The task's renderer and those of its entries are plain.
abbrev pub IsPlainTask : Task → Type 0
IsPlainTask t = IsPlain t.renderer × ArePlain t.entries

-- From a task in plain mode to one in plain mode, with lines written.
abbrev pub StaysPlain : Live → Live → Type 0
StaysPlain l l' = IsPlainTask l'.0 × IsQuiet l.1 l'.1

pub stays_then : (l l1 l2 : Live) → StaysPlain l l1 → StaysPlain l1 l2 → StaysPlain l l2
stays_then l l1 l2 (p, q) (p', q') = (p', IsQuiet-then q q')

pub if_StaysPlain :
    (b : Bool) (l x y : Live) → StaysPlain l x → StaysPlain l y → StaysPlain l (if b then x else y)
if_StaysPlain true l x y vx vy = vx
if_StaysPlain false l x y vx vy = vy

if_update_StaysPlain :
    (b : Bool) (l : Live) (x y : Bool × Live)
    → StaysPlain l x.1
    → StaysPlain l y.1
    → StaysPlain l (if b then x else y).1
if_update_StaysPlain true l x y vx vy = vx
if_update_StaysPlain false l x y vx vy = vy

-- What is found among plain entries.
pub Found : Option Stage → Type 0
Found none = Unit {0}
Found (some s) = IsPlain s.renderer

pub find_stage-Found : (id : Text) (es : List TaskEntry) → ArePlain es → Found (find_stage id es)
unfolding find_stage entry_renderer Found
find_stage-Found id [] p = tt
find_stage-Found id (extra r ∷ es) (p, ps) = find_stage-Found id es ps
find_stage-Found id (stage s0 ∷ es) (p, ps) = elim (Bool-cases (text_eq s0.id id)) [
  | inl same ↦ subst {A = Option Stage} Found (sym (if_true _ _ same)) p
  | inr other ↦
      subst {A = Option Stage} Found (sym (if_false _ _ other)) (find_stage-Found id es ps)
]

pub if_Found-StaysPlain :
    (o : Option Stage) (l : Live) (f : Stage → Bool × Live)
    → IsPlainTask l.0
    → Found o
    → ((s : Stage) → IsPlain s.renderer → StaysPlain l (f s).1)
    → StaysPlain l (elim o as (λ _. Bool × Live) [ none ↦ (false, l) | some s ↦ f s ]).1
unfolding Found
if_Found-StaysPlain none l f p h k = (p, IsQuiet-still l.1)
if_Found-StaysPlain (some s) l f p h k = k s h

pub set_stage-ArePlain :
    (id : Text) (s : Stage) (es : List TaskEntry)
    → IsPlain s.renderer
    → ArePlain es
    → ArePlain (set_stage id s es)
unfolding set_stage entry_renderer
set_stage-ArePlain id s [] q ps = ps
set_stage-ArePlain id s (extra r ∷ es) q (p, ps) = (p, set_stage-ArePlain id s es q ps)
set_stage-ArePlain id s (stage s0 ∷ es) q (p, ps) = elim (Bool-cases (text_eq s0.id id)) [
  | inl same ↦ subst {A = List TaskEntry} ArePlain (sym (if_true _ _ same)) (q, ps)
  | inr other ↦
      subst {A = List TaskEntry} ArePlain (sym (if_false _ _ other))
        (p, set_stage-ArePlain id s es q ps)
]

module _ (c : Console) where
  clear_entries_plain :
      (es : List TaskEntry) (w : Screen) → ArePlain es → clear_entries c es w ≡ ([], w)
  unfolding clear_entries
  clear_entries_plain [] w p = refl
  clear_entries_plain (e ∷ es) w (p, ps) =
      rw (clear_plain (entry_renderer e) w p) (rw (clear_entries_plain es w ps) refl)

  fall_back_plain :
      (s : TaskRenderingStrategy) (nodes : List LayoutNode) (w : Screen)
      → IsPlainStrategy s
      → fall_back c s nodes w ≡ w
  unfolding fall_back
  fall_back_plain (interactive node inserted) nodes w p = absurd p
  fall_back_plain (plain ci_prefix) nodes w p = refl

  finish_entries_plain :
      (es : List TaskEntry) (w : Screen) → ArePlain es → finish_entries c es w ≡ w
  unfolding finish_entries
  finish_entries_plain [] w p = refl
  finish_entries_plain (e ∷ es) w (p, ps) =
      ap (finish_entries c es) (finish_plain (entry_renderer e) w p) ∙ finish_entries_plain es w ps

  clear_children_plain :
      (l : Live) → IsPlainTask l.0 → clear_children c l ≡ (record l.0 { entries = [] }, l.1)
  unfolding clear_children
  clear_children_plain (t, w) (p, ps) =
      rw (clear_entries_plain t.entries w ps)
        (ap (λ x. (record t { entries = [] }, x)) (fall_back_plain t.renderer.strategy [] w p))

  clear_children-StaysPlain : (l : Live) → IsPlainTask l.0 → StaysPlain l (clear_children c l)
  clear_children-StaysPlain l (p, ps) =
      subst (StaysPlain l) (sym (clear_children_plain l (p, ps))) ((p, tt), IsQuiet-still l.1)

  pub set_completed-StaysPlain :
      (msg : Text) (l : Live) → IsPlainTask l.0 → StaysPlain l (set_completed c msg l)
  unfolding set_completed
  set_completed-StaysPlain msg l p =
      let l1 : Live = (
        record l.0 { is_finished = true },
        Renderer.success c l.0.renderer msg l.0.start_time l.1,
      ) in
      if_StaysPlain l.0.is_finished l l (clear_children c l1) (p, IsQuiet-still l.1)
        (stays_then l l1 (clear_children c l1)
          (p, success-IsQuiet c l.0.renderer msg l.0.start_time l.1 p.0)
          (clear_children-StaysPlain l1 p))

  set_failed_and_freeze-StaysPlain :
      (l : Live) → IsPlainTask l.0 → StaysPlain l (set_failed_and_freeze c l)
  unfolding set_failed_and_freeze finish_children
  set_failed_and_freeze-StaysPlain l p =
      let w1 = Renderer.fail c l.0.renderer l.0.start_time l.1 in
      (
        p,
        subst (IsQuiet l.1) (sym (finish_entries_plain l.0.entries w1 p.1))
            (fail-IsQuiet c l.0.renderer l.0.start_time l.1 p.0),
      )

  pub set_failed_and_clear-StaysPlain :
      (error : ErrorReport) (l : Live)
      → IsPlainTask l.0
      → StaysPlain l (set_failed_and_clear c error l)
  unfolding set_failed_and_clear set_failed_and_insert
  set_failed_and_clear-StaysPlain error l p =
      let (same, q) = fail_insert-IsQuiet c l.0.renderer error l.0.start_time l.1 p.0 in
      let l1 : Live = set_failed_and_insert c error l in
      let p1 : IsPlainTask l1.0 = (subst (λ r. IsPlain r) (sym same) p.0, p.1) in
      stays_then l l1 (clear_children c l1) (p1, q) (clear_children-StaysPlain l1 p1)

  pub update_state-StaysPlain : (l : Live) → IsPlainTask l.0 → StaysPlain l (update_state c l).1
  unfolding update_state
  update_state-StaysPlain l p =
      let same : StaysPlain l l = (p, IsQuiet-still l.1) in
      let done = set_completed c (codes "success") l in
      let calm : Bool × Live = if all_finished c l.0 then (true, done) else (true, l) in
      let open_ : Bool × Live =
        if not (is_empty l.0.failed_stages) then (true, set_failed_and_freeze c l) else calm in
      if_update_StaysPlain l.0.is_finished l (false, l) open_ same
        (if_update_StaysPlain (not (is_empty l.0.failed_stages)) l (true, set_failed_and_freeze c l)
          calm (set_failed_and_freeze-StaysPlain l p)
          (if_update_StaysPlain (all_finished c l.0) l (true, done) (true, l)
            (set_completed-StaysPlain (codes "success") l p) same))
