-- ===== src/Terminal/Builder/Life.antt =====
-- Where the bars of a task stand when the builder hands it out, in interactive mode, and when it has
-- ended.
use mathlib.Core.List.{append_assoc}
use knot_ops.Prelude.{
  inl, inr, all, any, ltb, ℕ, Bool, true, false, Text, none, some, List, [], ◌∷◌, ◌++◌, ◌≡◌, refl,
  sym, ap, ◌∙◌, subst, map, some-eq-some, contains, if◌then◌else◌,
}
use knot_ops.Terminal.Console.{Console, Call, Screen, new_bar, now}
use knot_ops.Terminal.Layout.{insert, set_anchor}
use knot_ops.Terminal.Layout.Rows.{IsMultiProgress, has}
use knot_ops.Terminal.Layout.Cursor.{
  IsCursor-steady, IsLaidOut, insert-IsCursor, set_anchor-IsLaidOut, IsLaidOut-steady, Slot,
  issued_above,
}
use knot_ops.Terminal.Renderer.{
  TaskRenderer, TaskRenderingStrategy, interactive, plain, interactive_mode,
}
use knot_ops.Terminal.Renderer
use knot_ops.Terminal.Renderer.Steady.{now-IsSteady, title-IsSteady}
use knot_ops.Terminal.Task.{TaskEntry, stage, extra, entry_renderer, ids, Task, Live, run_each}
use knot_ops.Terminal.Task
use knot_ops.Terminal.Task.Steady.{run_each-StaysPut}
use knot_ops.Terminal.Task.Restart.{run_each-IsRestarted}
use knot_ops.Terminal.Task.Anchor.{is_failure, Layout, Goes, IsOver}
use knot_ops.Terminal.Task.Standing.{play-Stands}
use knot_ops.Terminal.Task.Trace.{TaskOp, play}
use knot_ops.Terminal.Builder.{
  TaskBuilder, create_head_renderer, head_renderer, anchor_last, launch, finish_build, start,
}
use knot_ops.Terminal.Builder.Start.{start_each-run_each}
use knot_ops.Terminal.Builder.Steps.{build_steps-IsBuilt}
use knot_ops.Terminal.Builder.Order.{
  bar_of, bars_of, task_bars, in_interactive_mode, build_steps-PlacesAll, indented-Indents,
}

-- A task that was just handed out, in its layout.
pub record IsShown (rows : List Call → List ℕ) (above below : List ℕ) (l : Live) : Type 0 where
  pub layout : Layout rows
  pub goes : Goes rows layout l
  pub alone : has above layout.node.bar ≡ false
  pub at_last :
      Slot (some layout.last) (above ++ bars_of (layout.renderer ∷ layout.renderers)) below
  pub in_order : layout.order ≡ (above ++ bars_of (layout.renderer ∷ layout.renderers)) ++ below
  pub issued :
      all
        (λ k. ltb k layout.bars)
        ((above ++ bars_of (layout.renderer ∷ layout.renderers)) ++ below)
      ≡ true

module _ (rows : List Call → List ℕ) (laws : IsMultiProgress rows) (c : Console)
    (b : TaskBuilder) where
  -- The bars of the task stand below `above`, in order, and the last of them is the anchor.
  pub start-IsShown :
      (auto_indent : Bool) (w : Screen) (above below : List ℕ)
      → IsLaidOut rows w above below
      → (l : Live) × (start c auto_indent (in_interactive_mode b) w ≡ some l)
        × IsShown rows above below l
  unfolding start finish_build launch create_head_renderer head_renderer Renderer.new Task.new
      anchor_last insert new_bar now
  start-IsShown auto_indent w above below v =
      let (node, w1) = insert (new_bar w).0 (new_bar w).1 in
      let (_, v1) = insert-IsCursor rows laws w above below v in
      let head = Renderer.new b.name (interactive node []) b.style 0 in
      let w2 = Renderer.title c head w1 in
      let (built, e, point, e', own, v2) =
        build_steps-PlacesAll rows laws c b b.steps node w2 (above ++ (w.bars ∷ [])) below
          (IsCursor-steady rows (title-IsSteady rows laws c head w1) v1) in
      let (built', same, known) =
        build_steps-IsBuilt c (in_interactive_mode b) b.steps (some node) w2 tt in
      let (es, last, w3, e'', same_ids, owned, v3) =
        indented-Indents rows laws c b auto_indent node built.entries point built.screen
          (above ++ (w.bars ∷ [])) below own v2 in
      let l0 : Live = Task.new c head es (set_anchor last w3) in
      let laid : IsLaidOut rows l0.1 (above ++ task_bars l0.0) below =
        IsLaidOut-steady rows (now-IsSteady rows c (set_anchor last w3)) (
          subst (λ l. IsLaidOut rows (set_anchor last w3) l below)
            (append_assoc above (w.bars ∷ []) (bars_of (map entry_renderer es)))
            (set_anchor-IsLaidOut rows laws w3 last _ below v3)) in
      let same_built : built' ≡ built = some-eq-some (sym same ∙ e) in
      let within : (k : Text) → contains built.autostart k ≡ true → contains (ids es) k ≡ true =
        λ k m.
          ap (λ l. contains l k)
            (same_ids ∙ ap (λ x. ids x.entries) (sym same_built) ∙ known.in_order)
          ∙ known.known k (ap (λ x. contains x.autostart k) same_built ∙ m) in
      let put = run_each-StaysPut rows laws c none built.autostart l0 within refl refl in
      let restarted = run_each-IsRestarted c none built.autostart l0 within refl refl in
      let l1 = run_each c built.autostart none l0 in
      (
        l1,
        rw (e, finish_build)
            (rw (e', e'', launch) (rw (start_each-run_each c built.autostart l0) refl)),
        record {
          layout = record {
            renderer = head;
            node = node;
            at_node = refl;
            renderers = map entry_renderer es;
            order = rows l0.1.log;
            bars = l0.1.bars;
            last = last;
            own = owned;
          };
          goes = record {
            keeps = record {
              same_renderer = put.same_renderer;
              calm = restarted.calm;
              same_rows = put.steady.same_rows;
              same_bars = put.steady.same_bars;
            };
            live = restarted.live;
            same_entries = put.same_entries;
            anchored = put.steady.same_anchor;
          };
          alone = issued_above w.bars above below v.issued;
          at_last = laid.slot;
          in_order = laid.order;
          issued = laid.issued;
        },
      )

module _ (rows : List Call → List ℕ) (above below : List ℕ) (l : Live)
    (h : IsShown rows above below l) where
  same_task_bars : task_bars l.0 ≡ bars_of (h.layout.renderer ∷ h.layout.renderers)
  same_task_bars =
      ap (λ r. bars_of (r ∷ map entry_renderer l.0.entries)) h.goes.keeps.same_renderer
      ∙ ap (λ rs. bars_of (h.layout.renderer ∷ rs)) h.goes.same_entries

  going-IsLaidOut :
      (l' : Live) → Goes rows h.layout l' → IsLaidOut rows l'.1 (above ++ task_bars l.0) below
  going-IsLaidOut l' g =
      let bars = above ++ bars_of (h.layout.renderer ∷ h.layout.renderers) in
      subst (λ own. IsLaidOut rows l'.1 (above ++ own) below) (sym same_task_bars)
        (record {
          order = g.keeps.same_rows ∙ h.in_order;
          slot = subst (λ a. Slot a bars below) (sym g.anchored) h.at_last;
          issued = ap (λ n. all (λ k. ltb k n) (bars ++ below)) g.keeps.same_bars ∙ h.issued;
        })

  -- The rows, with the bar of the head apart from those of the entries.
  head_apart :
      (above ++ bars_of (h.layout.renderer ∷ h.layout.renderers)) ++ below
      ≡ (above ++ (h.layout.node.bar ∷ [])) ++ (bars_of h.layout.renderers ++ below)
  head_apart =
      ap (λ st. (above ++ (bar_of st ++ bars_of h.layout.renderers)) ++ below) h.layout.at_node
      ∙ simp append_assoc

  over-IsLaidOut :
      (l' : Live)
      → IsOver rows h.layout l'
      → IsLaidOut rows l'.1
          (above ++ bar_of l.0.renderer.strategy)
          (bars_of (map entry_renderer l.0.entries) ++ below)
  over-IsLaidOut l' o =
      let k = h.layout in
      let is_head : bar_of l.0.renderer.strategy ≡ k.node.bar ∷ [] =
        ap (λ r. bar_of r.strategy) h.goes.keeps.same_renderer ∙ ap bar_of k.at_node in
      let is_rest : bars_of (map entry_renderer l.0.entries) ≡ bars_of k.renderers =
        ap bars_of h.goes.same_entries in
      let out : IsLaidOut rows l'.1 (above ++ (k.node.bar ∷ [])) (bars_of k.renderers ++ below) =
        record {
          order = o.keeps.same_rows ∙ h.in_order ∙ head_apart;
          slot =
              subst (λ a. Slot a (above ++ (k.node.bar ∷ [])) (bars_of k.renderers ++ below))
                (sym o.anchored) (above, refl, h.alone);
          issued =
              ap
                (λ n.
                  all (λ j. ltb j n)
                    ((above ++ (k.node.bar ∷ [])) ++ (bars_of k.renderers ++ below)))
                o.keeps.same_bars
              ∙ ap (λ bars. all (λ j. ltb j k.bars) bars) (sym head_apart)
              ∙ h.issued;
        } in
      subst
        (λ own.
          IsLaidOut rows l'.1 (above ++ own) (bars_of (map entry_renderer l.0.entries) ++ below))
        (sym is_head)
        (subst (λ rest. IsLaidOut rows l'.1 (above ++ (k.node.bar ∷ [])) (rest ++ below))
          (sym is_rest) out)

module _ (rows : List Call → List ℕ) (laws : IsMultiProgress rows) (c : Console)
    (b : TaskBuilder) where
  -- Over a MultiProgress that keeps the promises of IsMultiProgress, and where the anchor is one
  -- of the bars, or there is none and all bars are above the new ones: TaskBuilder.start in
  -- interactive mode puts the bars of the task, from its head through its entries to the spacer,
  -- in this order right below the anchor, or below all bars; the others keep their order, and the
  -- anchor is then the last bar of the task. This is so after any operations that fail no stage
  -- too, as long as the task is unfinished; once they have finished it, the order is still the
  -- same, and the anchor is the bar of its head.
  pub start-play-IsLaidOut :
      (auto_indent : Bool) (ops : List TaskOp) (w : Screen) (above below : List ℕ)
      → IsLaidOut rows w above below
      → any is_failure ops ≡ false
      → (l : Live) × (start c auto_indent (in_interactive_mode b) w ≡ some l)
        × IsLaidOut rows l.1 (above ++ task_bars l.0) below
        × let l' = play c ops l in
          if l'.0.is_finished
          then IsLaidOut rows l'.1
              (above ++ bar_of l.0.renderer.strategy)
              (bars_of (map entry_renderer l.0.entries) ++ below)
          else IsLaidOut rows l'.1 (above ++ task_bars l.0) below
  start-play-IsLaidOut auto_indent ops w above below v calm =
      let (l, e, h) = start-IsShown rows laws c b auto_indent w above below v in
      let l' = play c ops l in
      (
        l,
        e,
        going-IsLaidOut rows above below l h l h.goes,
        elim (play-Stands rows laws c h.layout ops l calm (inl h.goes)) [
          | inl g ↦ rw g.live (going-IsLaidOut rows above below l h l' g)
          | inr o ↦ rw o.ended (over-IsLaidOut rows above below l h l' o)
        ],
      )
