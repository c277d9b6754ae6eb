-- ===== src/Terminal/Builder/Order.antt =====
-- Where the loop over the steps, and the spacer, put bars in interactive mode.
use mathlib.Core.List.{append_assoc, append-nil}
use knot_ops.Prelude.{
  inl, inr, ℕ, Bool, true, false, codes, none, some, List, [], ◌∷◌, ◌++◌, ◌≡◌, refl, sym, ap, ◌∙◌,
  subst, map, if◌then◌else◌,
}
use knot_ops.Terminal.Console.{Console, LayoutNode, Call, Screen, call, new_bar}
use knot_ops.Terminal.Layout.{insert_after}
use knot_ops.Terminal.Layout.Rows.{IsMultiProgress, IsSteady-still, call-IsSteady}
use knot_ops.Terminal.Layout.Cursor.{IsCursor, IsCursor-steady, insert_after-IsCursor}
use knot_ops.Terminal.Renderer.{
  TaskRenderer, TaskRenderingStrategy, interactive, plain, interactive_mode,
}
use knot_ops.Terminal.Renderer
use knot_ops.Terminal.Renderer.Steady.{wait-IsSteady, separator-IsSteady}
use knot_ops.Terminal.Task.{TaskEntry, stage, extra, entry_renderer, ids, Task}
use knot_ops.Terminal.Task.Nodes.{all_nodes, Owns, anchor_in_next, anchor_in_last}
use knot_ops.Terminal.Builder.{
  BuilderStep, stage_step, group_step, TaskBuilder, Built, header_name, create_child_renderer,
  child_renderer, auto_indent_on, indented, apply_auto_indent, prepend, build_steps,
}
use knot_ops.Terminal.Builder.Steps.{ids-append_extra}

-- The bar of a renderer, if it has one.
abbrev pub bar_of : TaskRenderingStrategy → List ℕ
bar_of (interactive node inserted) = node.bar ∷ []
bar_of (plain ci_prefix) = []

abbrev pub bars_of : List TaskRenderer → List ℕ
bars_of [] = []
bars_of (r ∷ rs) = bar_of r.strategy ++ bars_of rs

-- The bars of a task from its head down.
abbrev pub task_bars : Task → List ℕ
task_bars t = bars_of (t.renderer ∷ map entry_renderer t.entries)

abbrev pub in_interactive_mode : TaskBuilder → TaskBuilder
in_interactive_mode b = record b { mode = interactive_mode }

bars_of-append_one :
    (rs : List TaskRenderer) (r : TaskRenderer)
    → bars_of (rs ++ (r ∷ [])) ≡ bars_of rs ++ (bar_of r.strategy ++ [])
bars_of-append_one [] r = refl
bars_of-append_one (x ∷ rs) r =
    ap (λ l. bar_of x.strategy ++ l) (bars_of-append_one rs r)
    ∙ sym (append_assoc (bar_of x.strategy) (bars_of rs) (bar_of r.strategy ++ []))

map-append_one :
    (es : List TaskEntry) (e : TaskEntry)
    → map entry_renderer (es ++ (e ∷ [])) ≡ map entry_renderer es ++ (entry_renderer e ∷ [])
map-append_one [] e = refl
map-append_one (x ∷ es) e = ap (λ l. entry_renderer x ∷ l) (map-append_one es e)

module _ (rows : List Call → List ℕ) (laws : IsMultiProgress rows) (c : Console)
    (b : TaskBuilder) where
  -- The loop over the steps puts a bar for each entry below the insertion point, in order.
  abbrev pub PlacesAll : List BuilderStep → LayoutNode → Screen → List ℕ → List ℕ → Type 0
  PlacesAll steps point w shown below =
      (built : Built) × (build_steps c (in_interactive_mode b) steps (some point) w ≡ some built)
      × (last : LayoutNode) × (built.point ≡ some last)
      × Owns point (map entry_renderer built.entries) last
      × IsCursor rows built.screen last (shown ++ bars_of (map entry_renderer built.entries)) below

  pub build_steps-PlacesAll :
      (steps : List BuilderStep) (point : LayoutNode) (w : Screen) (shown below : List ℕ)
      → IsCursor rows w point shown below
      → PlacesAll steps point w shown below
  unfolding build_steps create_child_renderer child_renderer prepend entry_renderer Renderer.new
      insert_after new_bar
  build_steps-PlacesAll [] point w shown below v = (
    _,
    refl,
    point,
    refl,
    inl refl,
    subst (λ l. IsCursor rows w point l below) (sym (append-nil shown)) v,
  )
  build_steps-PlacesAll (stage_step id name auto_run ∷ steps) point w shown below v =
      let (node, w2) = insert_after point (new_bar w).0 (new_bar w).1 in
      let r = Renderer.new name (interactive node []) b.style 3 in
      let (_, v2) =
        insert_after-IsCursor rows laws w (new_bar w).1 point shown below v
          (IsSteady-still rows (new_bar w).1) in
      let w3 = Renderer.wait c r none w2 in
      let (built, e, last, e', own, v3) =
        build_steps-PlacesAll steps node w3 (shown ++ (w.bars ∷ [])) below
          (IsCursor-steady rows (wait-IsSteady rows laws c r none w2) v2) in
      (
        record built {
          entries = stage (record { id = id; renderer = r; start_time = none }) ∷ built.entries;
          autostart = (if auto_run then id ∷ [] else []) ++ built.autostart;
        },
        rw (e, prepend) refl,
        last,
        e',
        inr (anchor_in_next node last (all_nodes (map entry_renderer built.entries)) own),
        subst (λ l. IsCursor rows built.screen last l below) (append_assoc shown (w.bars ∷ []) _)
            v3,
      )
  build_steps-PlacesAll (group_step header ∷ steps) point w shown below v =
      let (node, w2) = insert_after point (new_bar w).0 (new_bar w).1 in
      let r = Renderer.new (header_name header) (interactive node []) b.style 3 in
      let (_, v2) =
        insert_after-IsCursor rows laws w (new_bar w).1 point shown below v
          (IsSteady-still rows (new_bar w).1) in
      let w3 = Renderer.separator c r w2 in
      let (built, e, last, e', own, v3) =
        build_steps-PlacesAll steps node w3 (shown ++ (w.bars ∷ [])) below
          (IsCursor-steady rows (separator-IsSteady rows laws c r w2) v2) in
      (
        record built { entries = extra r ∷ built.entries; autostart = [] ++ built.autostart },
        rw (e, prepend) refl,
        last,
        e',
        inr (anchor_in_next node last (all_nodes (map entry_renderer built.entries)) own),
        subst (λ l. IsCursor rows built.screen last l below) (append_assoc shown (w.bars ∷ []) _)
            v3,
      )

  -- The spacer, if one is wanted, is an entry with a bar like the others.
  abbrev pub Indents :
      Bool → LayoutNode → List TaskEntry → LayoutNode → Screen → List ℕ → List ℕ → Type 0
  Indents auto_indent head es point w shown below =
      (es' : List TaskEntry) × (last : LayoutNode) × (w' : Screen) × (indented auto_indent
          (in_interactive_mode b) es (some point) w
        ≡ some (es', some last, w'))
      × (ids es' ≡ ids es)
      × Owns head (map entry_renderer es') last
      × IsCursor rows w' last (shown ++ bars_of (map entry_renderer es')) below

  pub indented-Indents :
      (auto_indent : Bool) (head : LayoutNode) (es : List TaskEntry) (point : LayoutNode)
      (w : Screen) (shown below : List ℕ)
      → Owns head (map entry_renderer es) point
      → IsCursor rows w point (shown ++ bars_of (map entry_renderer es)) below
      → Indents auto_indent head es point w shown below
  unfolding indented apply_auto_indent auto_indent_on entry_renderer Renderer.new insert_after
      new_bar
  indented-Indents false head es point w shown below own v = (es, point, w, refl, refl, own, v)
  indented-Indents true head es point w shown below own v =
      let (bar, w1) = new_bar w in
      let w2 = call (Call.set_style bar (codes "{msg}")) w1 in
      let (spacer, w3) = insert_after point bar w2 in
      let e : TaskEntry = extra (Renderer.new [] (interactive spacer []) b.style 3) in
      let bars = bars_of (map entry_renderer es) in
      let (_, v3) =
        insert_after-IsCursor rows laws w w2 point (shown ++ bars) below v
          (call-IsSteady rows laws (Call.set_style bar (codes "{msg}")) w1 refl) in
      let v4 =
        IsCursor-steady rows
          (call-IsSteady rows laws (Call.finish_with_message bar (codes " ")) w3 refl) v3 in
      (
        es ++ (e ∷ []),
        spacer,
        call (Call.finish_with_message bar (codes " ")) w3,
        refl,
        ids-append_extra es _,
        inr (anchor_in_last es e spacer (anchor_in_next spacer spacer [] (inl refl))),
        subst
            (λ l. IsCursor rows (call (Call.finish_with_message bar (codes " ")) w3) spacer l below)
            (append_assoc shown bars (bar ∷ [])
              ∙ ap (λ l. shown ++ l)
                  (sym (
                    ap bars_of (map-append_one es e)
                    ∙ bars_of-append_one (map entry_renderer es) (entry_renderer e))))
            v4,
      )
