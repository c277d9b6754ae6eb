-- ===== src/Terminal/Renderer/Steady.antt =====
-- The states of a renderer that leave every bar in its place.
use knot_ops.Prelude.{◌∷◌, [], ◌≡◌, ℕ, Text, Option, List, refl}
use knot_ops.Terminal.Console.{Console, LayoutNode, Call, Screen, call, call_all, now}
use knot_ops.Terminal.Layout.Rows.{
  IsMultiProgress, IsSteady, IsSteady-still, IsSteady-then, call-IsSteady, two_calls-IsSteady,
  three_calls-IsSteady,
}
use knot_ops.Terminal.Renderer.Format.{TaskRenderingStrategy, interactive, plain, TaskRenderer}
use knot_ops.Terminal.Renderer

-- The nodes of a strategy.
abbrev pub nodes_of : TaskRenderingStrategy → List LayoutNode
nodes_of (interactive node inserted) = node ∷ inserted
nodes_of (plain ci_prefix) = []

pub now-IsSteady :
    (rows : List Call → List ℕ) (c : Console) (w : Screen) → IsSteady rows w (now c w).1
unfolding now
now-IsSteady rows c w = record { same_rows = refl; same_bars = refl; same_anchor = refl }

module _ (rows : List Call → List ℕ) (laws : IsMultiProgress rows) (c : Console) where
  line-IsSteady :
      (ci_prefix content : Text) (w : Screen)
      → IsSteady rows w (Renderer.write_plain_line c ci_prefix content w)
  unfolding Renderer.write_plain_line
  line-IsSteady ci_prefix content w = call-IsSteady rows laws (Call.write_line _) w refl

  title_on-IsSteady :
      (s : TaskRenderingStrategy) (r : TaskRenderer) (w : Screen)
      → IsSteady rows w (Renderer.title_on c s r w)
  unfolding Renderer.title_on call_all
  title_on-IsSteady (interactive node inserted) r w =
      three_calls-IsSteady rows laws c _ _ _ w refl refl refl
  title_on-IsSteady (plain ci_prefix) r w = line-IsSteady ci_prefix _ w

  pub title-IsSteady : (r : TaskRenderer) (w : Screen) → IsSteady rows w (Renderer.title c r w)
  unfolding Renderer.title
  title-IsSteady r w = title_on-IsSteady r.strategy r w

  run_on-IsSteady :
      (s : TaskRenderingStrategy) (r : TaskRenderer) (msg : Option Text) (w : Screen)
      → IsSteady rows w (Renderer.run_on c s r msg w)
  unfolding Renderer.run_on call_all
  run_on-IsSteady (interactive node inserted) r msg w =
      three_calls-IsSteady rows laws c _ _ _ w refl refl refl
  run_on-IsSteady (plain ci_prefix) r msg w = line-IsSteady ci_prefix _ w

  pub run-IsSteady :
      (r : TaskRenderer) (msg : Option Text) (w : Screen) → IsSteady rows w (Renderer.run c r msg w)
  unfolding Renderer.run
  run-IsSteady r msg w = run_on-IsSteady r.strategy r msg w

  wait_on-IsSteady :
      (s : TaskRenderingStrategy) (r : TaskRenderer) (msg : Text) (w : Screen)
      → IsSteady rows w (Renderer.wait_on c s r msg w)
  unfolding Renderer.wait_on call_all
  wait_on-IsSteady (interactive node inserted) r msg w =
      three_calls-IsSteady rows laws c _ _ _ w refl refl refl
  wait_on-IsSteady (plain ci_prefix) r msg w = line-IsSteady ci_prefix _ w

  pub wait-IsSteady :
      (r : TaskRenderer) (msg : Option Text) (w : Screen)
      → IsSteady rows w (Renderer.wait c r msg w)
  unfolding Renderer.wait
  wait-IsSteady r msg w = wait_on-IsSteady r.strategy r _ w

  separator_on-IsSteady :
      (s : TaskRenderingStrategy) (r : TaskRenderer) (w : Screen)
      → IsSteady rows w (Renderer.separator_on c s r w)
  unfolding Renderer.separator_on call_all
  separator_on-IsSteady (interactive node inserted) r w =
      two_calls-IsSteady rows laws c _ _ w refl refl
  separator_on-IsSteady (plain ci_prefix) r w = line-IsSteady ci_prefix _ w

  pub separator-IsSteady :
      (r : TaskRenderer) (w : Screen) → IsSteady rows w (Renderer.separator c r w)
  unfolding Renderer.separator
  separator-IsSteady r w = separator_on-IsSteady r.strategy r w

  skip_on-IsSteady :
      (s : TaskRenderingStrategy) (r : TaskRenderer) (msg : Text) (w : Screen)
      → IsSteady rows w (Renderer.skip_on c s r msg w)
  unfolding Renderer.skip_on call_all
  skip_on-IsSteady (interactive node inserted) r msg w =
      three_calls-IsSteady rows laws c _ _ _ w refl refl refl
  skip_on-IsSteady (plain ci_prefix) r msg w = line-IsSteady ci_prefix _ w

  pub skip-IsSteady :
      (r : TaskRenderer) (msg : Text) (w : Screen) → IsSteady rows w (Renderer.skip c r msg w)
  unfolding Renderer.skip
  skip-IsSteady r msg w = skip_on-IsSteady r.strategy r msg w

  success_on-IsSteady :
      (s : TaskRenderingStrategy) (r : TaskRenderer) (msg : Text) (start : ℕ) (final_msg : Text)
      (w : Screen)
      → IsSteady rows w (Renderer.success_on c s r msg start final_msg w)
  unfolding Renderer.success_on Renderer.format_duration call_all
  success_on-IsSteady (interactive node inserted) r msg start final_msg w =
      three_calls-IsSteady rows laws c _ _ _ w refl refl refl
  success_on-IsSteady (plain ci_prefix) r msg start final_msg w =
      IsSteady-then rows (now-IsSteady rows c w) (line-IsSteady ci_prefix _ (now c w).1)

  pub success-IsSteady :
      (r : TaskRenderer) (msg : Text) (start : ℕ) (w : Screen)
      → IsSteady rows w (Renderer.success c r msg start w)
  unfolding Renderer.success Renderer.format_duration
  success-IsSteady r msg start w =
      IsSteady-then rows (now-IsSteady rows c w)
        (success_on-IsSteady r.strategy r msg start _ (now c w).1)

  clear_all-IsSteady :
      (nodes : List LayoutNode) (w : Screen) → IsSteady rows w (Renderer.clear_all nodes w)
  unfolding Renderer.clear_all
  clear_all-IsSteady [] w = IsSteady-still rows w
  clear_all-IsSteady (node ∷ nodes) w =
      IsSteady-then rows (call-IsSteady rows laws (Call.finish_and_clear node.bar) w refl)
        (clear_all-IsSteady nodes (call (Call.finish_and_clear node.bar) w))

  clear_on-IsSteady :
      (s : TaskRenderingStrategy) (r : TaskRenderer) (w : Screen)
      → ((Renderer.clear_on s r w).0 ≡ nodes_of s) × IsSteady rows w (Renderer.clear_on s r w).2
  unfolding Renderer.clear_on
  clear_on-IsSteady (interactive node inserted) r w = (refl, clear_all-IsSteady (node ∷ inserted) w)
  clear_on-IsSteady (plain ci_prefix) r w = (refl, IsSteady-still rows w)

  -- Clearing a renderer gives its nodes.
  pub clear-IsSteady :
      (r : TaskRenderer) (w : Screen)
      → ((Renderer.clear r w).0 ≡ nodes_of r.strategy) × IsSteady rows w (Renderer.clear r w).2
  unfolding Renderer.clear
  clear-IsSteady r w = clear_on-IsSteady r.strategy r w
