-- ===== src/Terminal/Task/State.antt =====
-- task.rs: the state of a task, how it ends, and `update_state`.
use knot_ops.Prelude.{
  ℕ, Bool, true, false, not, Text, codes, List, [], ◌∷◌, ◌++◌, if◌then◌else◌, all, is_empty,
  contains,
}
use knot_ops.Terminal.Console.{Console, LayoutNode, Screen, now}
use knot_ops.Terminal.Layout.{update_anchor_if_in}
use knot_ops.Terminal.Report.{ErrorReport}
use knot_ops.Terminal.Renderer.{TaskRenderer, TaskRenderingStrategy, interactive, plain}
use knot_ops.Terminal.Renderer
use knot_ops.Terminal.Task.Stages.{TaskEntry, stages}
use knot_ops.Terminal.Task.Stages

pub record Task : Type 0 where
  pub renderer : TaskRenderer
  pub entries : List TaskEntry
  pub start_time : ℕ
  pub finished_stages : List Text
  pub failed_stages : List Text
  pub is_finished : Bool

-- A task and the screen that it writes to.
abbrev pub Live : Type 0
Live = Task × Screen

module _ (c : Console) where
  unfoldable pub new : TaskRenderer → List TaskEntry → Screen → Live
  new renderer entries w =
      let (start, w1) = now c w in
      (
        record {
          renderer = renderer;
          entries = entries;
          start_time = start;
          finished_stages = [];
          failed_stages = [];
          is_finished = false;
        },
        w1,
      )

  unfoldable pub clear_entries : List TaskEntry → Screen → List LayoutNode × Screen
  clear_entries [] w = ([], w)
  clear_entries (e ∷ es) w =
      let (nodes, _, w1) = Renderer.clear (Stages.entry_renderer e) w in
      let (more, w2) = clear_entries es w1 in (nodes ++ more, w2)

  unfoldable pub fall_back : TaskRenderingStrategy → List LayoutNode → Screen → Screen
  fall_back (interactive main_node _) nodes w = update_anchor_if_in nodes main_node w
  fall_back (plain _) nodes w = w

  unfoldable pub clear_children : Live → Live
  unfolding clear_entries fall_back
  clear_children (t, w) =
      let (nodes_to_clear, w1) = clear_entries t.entries w in
      (record t { entries = [] }, fall_back t.renderer.strategy nodes_to_clear w1)

  unfoldable pub finish_entries : List TaskEntry → Screen → Screen
  finish_entries [] w = w
  finish_entries (e ∷ es) w =
      finish_entries es (Renderer.finish_silently (Stages.entry_renderer e) w)

  unfoldable pub finish_children : Live → Live
  unfolding finish_entries
  finish_children (t, w) = (t, finish_entries t.entries w)

  unfoldable pub set_completed : Text → Live → Live
  unfolding clear_children
  set_completed msg (t, w) =
      if t.is_finished
      then (t, w)
      else clear_children
          (record t { is_finished = true }, Renderer.success c t.renderer msg t.start_time w)

  unfoldable pub set_failed_and_insert : ErrorReport → Live → Live
  set_failed_and_insert error (t, w) =
      let (renderer, w1) = Renderer.fail_insert c t.renderer error t.start_time w in
      (record t { renderer = renderer; is_finished = true }, w1)

  unfoldable pub set_failed_and_freeze : Live → Live
  unfolding finish_children
  set_failed_and_freeze (t, w) =
      finish_children (record t { is_finished = true }, Renderer.fail c t.renderer t.start_time w)

  unfoldable pub set_failed_and_clear : ErrorReport → Live → Live
  unfolding set_failed_and_insert clear_children
  set_failed_and_clear error l = clear_children (set_failed_and_insert error l)

  unfoldable pub all_finished : Task → Bool
  all_finished t = all (λ s. contains t.finished_stages s.id) (stages t.entries)

  unfoldable pub update_state : Live → Bool × Live
  unfolding set_failed_and_freeze all_finished set_completed
  update_state (t, w) =
      if t.is_finished
      then (false, (t, w))
      else if not (is_empty t.failed_stages)
      then (true, set_failed_and_freeze (t, w))
      else if all_finished t
      then (true, set_completed (codes "success") (t, w))
      else (true, (t, w))
