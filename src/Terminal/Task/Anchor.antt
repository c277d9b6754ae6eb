-- ===== src/Terminal/Task/Anchor.antt =====
-- Where the anchor is while a task runs, and when it has ended without a failure.
use knot_ops.Prelude.{
  ℕ, Bool, true, false, some, List, [], ◌∷◌, ◌++◌, ◌≡◌, refl, ap, ◌∙◌, ◌⊎◌, inl, inr, arith, map,
  Bool-cases,
}
use knot_ops.Terminal.Console.{Console, LayoutNode, Call, Screen}
use knot_ops.Terminal.Layout.{anchor_in, set_anchor, update_anchor_if_in}
use knot_ops.Terminal.Layout.Rows.{IsMultiProgress, IsSteady, IsSteady-still, IsSteady-then}
use knot_ops.Terminal.Renderer.{TaskRenderer, TaskRenderingStrategy, interactive}
use knot_ops.Terminal.Renderer
use knot_ops.Terminal.Renderer.Steady.{nodes_of, clear-IsSteady}
use knot_ops.Terminal.Task.Stages.{TaskEntry, entry_renderer}
use knot_ops.Terminal.Task.State.{Task, Live, clear_entries}
use knot_ops.Terminal.Task.Nodes.{all_nodes, Owns}
use knot_ops.Terminal.Task.Trace.{TaskOp, fail_one, fail_all}

-- A call of `fail`.
abbrev pub is_failure : TaskOp → Bool
is_failure (fail_one id report) = true
is_failure (fail_all report) = true
is_failure _ = false

-- What a task was when it was handed out: its renderer, with its node, those of its entries, the rows and
-- the number of bars, and the last node, which is one of its nodes.
pub record Layout (rows : List Call → List ℕ) : Type 0 where
  pub renderer : TaskRenderer
  pub node : LayoutNode
  pub at_node : renderer.strategy ≡ interactive node []
  pub renderers : List TaskRenderer
  pub order : List ℕ
  pub bars : ℕ
  pub last : LayoutNode
  pub own : Owns node renderers last

module _ (rows : List Call → List ℕ) (p : Layout rows) where
  pub record Keeps (l : Live) : Type 0 where
    pub same_renderer : l.0.renderer ≡ p.renderer
    pub calm : l.0.failed_stages ≡ []
    pub same_rows : rows l.1.log ≡ p.order
    pub same_bars : l.1.bars ≡ p.bars

  -- The task is unfinished, and the anchor where it was.
  pub record Goes (l : Live) : Type 0 where
    pub keeps : Keeps l
    pub live : l.0.is_finished ≡ false
    pub same_entries : map entry_renderer l.0.entries ≡ p.renderers
    pub anchored : l.1.anchor ≡ some p.last

  -- The task is finished, and the anchor at its head.
  pub record IsOver (l : Live) : Type 0 where
    pub keeps : Keeps l
    pub ended : l.0.is_finished ≡ true
    pub cleared : l.0.entries ≡ []
    pub anchored : l.1.anchor ≡ some p.node

  abbrev pub Stands : Live → Type 0
  Stands l = Goes l ⊎ IsOver l

  Keeps-steady : (t : Task) {w w' : Screen} → IsSteady rows w w' → Keeps (t, w) → Keeps (t, w')
  Keeps-steady t s k = record {
    same_renderer = k.same_renderer;
    calm = k.calm;
    same_rows = s.same_rows ∙ k.same_rows;
    same_bars = s.same_bars ∙ k.same_bars;
  }

module _ (rows : List Call → List ℕ) (laws : IsMultiProgress rows) (c : Console) where
  pub clear_entries-IsSteady :
      (es : List TaskEntry) (w : Screen)
      → ((clear_entries c es w).0 ≡ all_nodes (map entry_renderer es))
        × IsSteady rows w (clear_entries c es w).1
  unfolding clear_entries
  clear_entries-IsSteady [] w = (refl, IsSteady-still rows w)
  clear_entries-IsSteady (e ∷ es) w =
      let (first, s) = clear-IsSteady rows laws c (entry_renderer e) w in
      let w1 = (Renderer.clear (entry_renderer e) w).2 in
      let (rest, s') = clear_entries-IsSteady es w1 in
      (
        ap (λ ns. ns ++ (clear_entries c es w1).0) first
            ∙ ap (λ ns. nodes_of (entry_renderer e).strategy ++ ns) rest,
        IsSteady-then rows s s',
      )

  -- The anchor after a fall back to a node: it was that node, or one of those cleared.
  pub fallen :
      (nodes : List LayoutNode) (node last : LayoutNode) (w : Screen)
      → w.anchor ≡ some last
      → (last ≡ node) ⊎ (anchor_in nodes (some last) ≡ true)
      → ((update_anchor_if_in nodes node w).anchor ≡ some node)
        × ((update_anchor_if_in nodes node w).log ≡ w.log)
        × ((update_anchor_if_in nodes node w).bars ≡ w.bars)
  unfolding update_anchor_if_in set_anchor
  fallen nodes node last w at own = elim (Bool-cases (anchor_in nodes w.anchor)) [
    | inl within ↦ rw within (refl, refl, refl)
    | inr without ↦ elim own [
      | inl same ↦ rw without (at ∙ ap (λ n. some n) same, refl, refl)
      | inr within ↦ absurd (ground (arith, without, ap (anchor_in nodes) at, within))
    ]
  ]
