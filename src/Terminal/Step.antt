-- ===== src/Terminal/Step.antt =====
-- step.rs: a standalone step. A method that takes `self` by value ends the step.
use knot_ops.Prelude.{ℕ, Text, Option, none, some}
use knot_ops.Terminal.Console.{Console, Screen, now}
use knot_ops.Terminal.Report.{ErrorReport}
use knot_ops.Terminal.Renderer.{TaskRenderer}
use knot_ops.Terminal.Renderer

pub record Step : Type 0 where
  pub renderer : TaskRenderer
  pub start : Option ℕ

module _ (c : Console) where
  unfoldable pub new : TaskRenderer → Screen → Step × Screen
  new renderer w = (record { renderer = renderer; start = none }, Renderer.wait c renderer none w)

  time_or_now : Option ℕ → Screen → ℕ × Screen
  time_or_now (some start) w = (start, w)
  time_or_now none w = now c w

  unfoldable pub time : Step → Screen → ℕ × Screen
  unfolding time_or_now
  time s w = time_or_now s.start w

  -- `run`, `perform_run`
  unfoldable pub run : Step → Option Text → Screen → Step × Screen
  run s status w =
      let (start, w1) = now c (Renderer.run c s.renderer status w) in
      (record s { start = some start }, w1)

  -- `ok`, `perform_ok`
  unfoldable pub ok : Step → Text → Screen → Screen
  unfolding time
  ok s status w = let (start, w1) = time s w in Renderer.success c s.renderer status start w1

  -- `fail`, `perform_fail`
  unfoldable pub fail : Step → ErrorReport → Screen → Step × Screen
  unfolding time
  fail s error w =
      let (start, w1) = time s w in
      let (renderer, w2) = Renderer.fail_insert c s.renderer error start w1 in
      (record s { renderer = renderer }, w2)

  -- `skip`, `perform_skip`
  unfoldable pub skip : Step → Text → Screen → Screen
  skip s status w = Renderer.skip c s.renderer status w
