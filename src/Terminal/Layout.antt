-- ===== src/Terminal/Layout.antt =====
-- layout.rs, layout/anchor.rs and layout/node.rs: where a new progress bar goes.
pub mod Rows
pub mod Cursor
use knot_ops.Prelude.{ℕ, ◌+◌, Bool, false, Option, none, some, List, any, ◌==◌, if◌then◌else◌}
use knot_ops.Terminal.Console.{LayoutNode, Call, Screen, call}

-- `PartialEq for LayoutNode`: by id alone.
unfoldable pub node_eq : LayoutNode → LayoutNode → Bool
node_eq a b = a.id == b.id

-- `TaskLayout::next_id`
unfoldable pub next_id : Screen → ℕ × Screen
next_id w = (w.node_counter, record w { node_counter = w.node_counter + 1 })

-- `TaskLayout::set_anchor`
unfoldable pub set_anchor : LayoutNode → Screen → Screen
set_anchor node w = record w { anchor = some node }

-- `TaskLayout::insert`
unfoldable pub insert : ℕ → Screen → LayoutNode × Screen
unfolding next_id set_anchor call
insert bar w =
    let w1 : Screen = elim w.anchor [
      | some anchor_bar ↦ call (Call.multi_insert_after anchor_bar.bar bar) w
      | none ↦ call (Call.multi_add bar) w
    ] in
    let (id, w2) = next_id w1 in
    let node : LayoutNode = record { id = id; bar = bar } in (node, set_anchor node w2)

is_current : Option LayoutNode → LayoutNode → Bool
unfolding node_eq
is_current (some current) target = node_eq current target
is_current none target = false

-- `TaskLayout::insert_after`
unfoldable pub insert_after : LayoutNode → ℕ → Screen → LayoutNode × Screen
unfolding next_id set_anchor call is_current
insert_after target bar w =
    let (id, w1) = next_id (call (Call.multi_insert_after target.bar bar) w) in
    let node : LayoutNode = record { id = id; bar = bar } in
    (node, if is_current w.anchor target then set_anchor node w1 else w1)

unfoldable pub anchor_in : List LayoutNode → Option LayoutNode → Bool
unfolding node_eq
anchor_in nodes none = false
anchor_in nodes (some current) = any (λ node. node_eq node current) nodes

-- `TaskLayout::update_anchor_if_in`
unfoldable pub update_anchor_if_in : List LayoutNode → LayoutNode → Screen → Screen
unfolding anchor_in set_anchor
update_anchor_if_in nodes fallback w = if anchor_in nodes w.anchor then set_anchor fallback w else w
