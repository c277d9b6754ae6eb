-- ===== src/Terminal/Task/Stages.antt =====
-- task/stage.rs, and the entries of a task.
use knot_ops.Prelude.{ℕ, Text, Option, none, some, List, [], ◌∷◌, if◌then◌else◌, text_eq, map}
use knot_ops.Terminal.Console.{Console, Screen, now}
use knot_ops.Terminal.Report.{ErrorReport}
use knot_ops.Terminal.Renderer.{TaskRenderer}
use knot_ops.Terminal.Renderer

pub record Stage : Type 0 where
  pub id : Text
  pub renderer : TaskRenderer
  pub start_time : Option ℕ

pub data TaskEntry : Type 0 where
  stage : Stage → TaskEntry
  extra : TaskRenderer → TaskEntry

-- The renderer of an entry, for the loops over all entries.
unfoldable pub entry_renderer : TaskEntry → TaskRenderer
entry_renderer (stage s) = s.renderer
entry_renderer (extra r) = r

-- `stage_iterator`
unfoldable pub stages : List TaskEntry → List Stage
stages [] = []
stages (stage s ∷ es) = s ∷ stages es
stages (extra r ∷ es) = stages es

-- `get_stage`: the first stage with the id.
unfoldable pub find_stage : Text → List TaskEntry → Option Stage
find_stage id [] = none
find_stage id (stage s ∷ es) = if text_eq s.id id then some s else find_stage id es
find_stage id (extra r ∷ es) = find_stage id es

-- What a write through `get_stage_mut` leaves.
unfoldable pub set_stage : Text → Stage → List TaskEntry → List TaskEntry
set_stage id s' [] = []
set_stage id s' (stage s ∷ es) =
    if text_eq s.id id then stage s' ∷ es else stage s ∷ set_stage id s' es
set_stage id s' (extra r ∷ es) = extra r ∷ set_stage id s' es

-- `collect_stage_ids`
unfoldable pub ids : List TaskEntry → List Text
unfolding stages
ids es = map (λ s. s.id) (stages es)

unfoldable pub new : Text → TaskRenderer → Stage
new id renderer = record { id = id; renderer = renderer; start_time = none }

module _ (c : Console) where
  unfoldable pub started_or_now : Option ℕ → Screen → ℕ × Screen
  started_or_now (some start) w = (start, w)
  started_or_now none w = now c w

  unfoldable pub run : Stage → Option Text → Screen → Screen
  run s msg w = Renderer.run c s.renderer msg w

  unfoldable pub wait : Stage → Option Text → Screen → Screen
  wait s msg w = Renderer.wait c s.renderer msg w

  unfoldable pub success : Stage → Text → Screen → Screen
  unfolding started_or_now
  success s msg w =
      let (start, w1) = started_or_now s.start_time w in Renderer.success c s.renderer msg start w1

  unfoldable pub fail : Stage → ErrorReport → Screen → Stage × Screen
  unfolding started_or_now
  fail s error w =
      let (start, w1) = started_or_now s.start_time w in
      let (renderer, w2) = Renderer.fail_insert c s.renderer error start w1 in
      (record s { renderer = renderer }, w2)

  unfoldable pub skip : Stage → Text → Screen → Screen
  skip s msg w = Renderer.skip c s.renderer msg w
