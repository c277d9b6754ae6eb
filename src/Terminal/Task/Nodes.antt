-- ===== src/Terminal/Task/Nodes.antt =====
-- The nodes of a task's entries.
use mathlib.Core.List.{append-nil}
use knot_ops.Prelude.{
  true, some, List, [], ◌∷◌, ◌++◌, ◌≡◌, sym, ◌⊎◌, inl, inr, arith, map, ==_iff, subst,
}
use knot_ops.Terminal.Console.{LayoutNode}
use knot_ops.Terminal.Layout.{anchor_in, node_eq}
use knot_ops.Terminal.Renderer.{TaskRenderer}
use knot_ops.Terminal.Renderer.Steady.{nodes_of}
use knot_ops.Terminal.Task.Stages.{TaskEntry, entry_renderer}

-- The nodes of some renderers, in order.
abbrev pub all_nodes : List TaskRenderer → List LayoutNode
all_nodes [] = []
all_nodes (r ∷ rs) = nodes_of r.strategy ++ all_nodes rs

-- A node is `point`, or one of those of some renderers.
abbrev pub Owns : LayoutNode → List TaskRenderer → LayoutNode → Type 0
Owns point rs node = (node ≡ point) ⊎ (anchor_in (all_nodes rs) (some node) ≡ true)

anchor_in_first :
    (node : LayoutNode) (nodes : List LayoutNode) → anchor_in (node ∷ nodes) (some node) ≡ true
unfolding anchor_in node_eq
anchor_in_first node nodes = ground (arith, ==_iff node.id node.id)

pub anchor_in_next :
    (node last : LayoutNode) (nodes : List LayoutNode)
    → (last ≡ node) ⊎ (anchor_in nodes (some last) ≡ true)
    → anchor_in (node ∷ nodes) (some last) ≡ true
unfolding anchor_in
anchor_in_next node last nodes (inl e) =
    subst (λ n. anchor_in (node ∷ nodes) (some n) ≡ true) (sym e) (anchor_in_first node nodes)
anchor_in_next node last nodes (inr h) = ground (arith, h)

anchor_in_right :
    (xs ys : List LayoutNode) (node : LayoutNode)
    → anchor_in ys (some node) ≡ true
    → anchor_in (xs ++ ys) (some node) ≡ true
unfolding anchor_in
anchor_in_right [] ys node h = h
anchor_in_right (x ∷ xs) ys node h = ground (arith, anchor_in_right xs ys node h)

-- The node of the last of some entries.
pub anchor_in_last :
    (es : List TaskEntry) (e : TaskEntry) (node : LayoutNode)
    → anchor_in (nodes_of (entry_renderer e).strategy) (some node) ≡ true
    → anchor_in (all_nodes (map entry_renderer (es ++ (e ∷ [])))) (some node) ≡ true
anchor_in_last [] e node h =
    subst (λ ns. anchor_in ns (some node) ≡ true)
      (sym (append-nil (nodes_of (entry_renderer e).strategy))) h
anchor_in_last (x ∷ es) e node h =
    anchor_in_right (nodes_of (entry_renderer x).strategy)
      (all_nodes (map entry_renderer (es ++ (e ∷ [])))) node (anchor_in_last es e node h)
