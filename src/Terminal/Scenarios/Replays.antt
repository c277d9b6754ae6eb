-- ===== src/Terminal/Scenarios/Replays.antt =====
-- Tasks and sequences played against what they promise, and a task in plain mode.
use knot_ops.Prelude.{true, false, codes, none, some, List, [], ◌∷◌, ◌≡◌, ◌≢◌, refl}
use knot_ops.Terminal.Style
use knot_ops.Terminal.Renderer.Quiet.{IsQuiet}
use knot_ops.Terminal.Task.{Live, ids}
use knot_ops.Terminal.Task
use knot_ops.Terminal.Task.Trace
use knot_ops.Terminal.Task.Spec
use knot_ops.Terminal.Task.Refine.{view}
use knot_ops.Terminal.Task.Replay.{play-new-replay}
use knot_ops.Terminal.Builder.{BuilderStep, TaskBuilder, stage_step, group_step}
use knot_ops.Terminal.Builder
use knot_ops.Terminal.Engine.Quiet.{engine_task, engine_task-IsQuiet, engine_sequence-IsQuiet}
use knot_ops.Terminal.Engine
use knot_ops.Terminal.Sequence.{LiveSequence, new_builder, with_stage, with_group}
use knot_ops.Terminal.Sequence
use knot_ops.Terminal.Sequence.Ids.{ChainStep, staged, grouped, chain, first_ids}
use knot_ops.Terminal.Sequence.Course.{
  SequenceOp, ok_op, skip_op, fail_op, Follows, replay, beginning, play_all, start-play_all-Follows,
}
use knot_ops.Terminal.Renderer.{plain_mode}
use knot_ops.Terminal.Scenarios.{console, blank, report, head, fetch, link, two_stages, operations}

play-new-replay_example :
    view (Trace.play console operations (Task.new console head two_stages.entries blank)).0
    ≡ Spec.replay operations (Spec.fresh (ids two_stages.entries))
play-new-replay_example = play-new-replay console head two_stages.entries blank operations

abbrev steps : List BuilderStep
steps = stage_step fetch fetch true ∷ group_step none ∷ stage_step link link false ∷ []

engine_task-IsQuiet_example :
    (l : Live) × (Builder.start console true
        (engine_task true true Style.modern (codes "build") steps)
        blank
      ≡ some l)
    × IsQuiet blank (Trace.play console operations l).1
engine_task-IsQuiet_example =
    engine_task-IsQuiet console true true Style.modern (codes "build") steps true operations blank
      refl

abbrev calls : List ChainStep
calls = staged fetch ∷ grouped none ∷ staged link ∷ []

abbrev builder : TaskBuilder
builder = record { name = codes "deploy"; steps = []; style = Style.plain; mode = plain_mode }

abbrev sequence_ops : List SequenceOp
sequence_ops = ok_op (codes "done") ∷ fail_op report ∷ skip_op (codes "late") ∷ []

two_calls : first_ids (chain calls (new_builder builder)).stage_counter ≢ []
unfolding first_ids chain new_builder with_stage with_group
two_calls e = cc

start-play_all-Follows_example :
    let b' = chain calls (new_builder builder) in
    let stages = first_ids b'.stage_counter in
    (l : LiveSequence) × (Sequence.start console true b' blank ≡ some l)
    × Follows stages (replay stages sequence_ops beginning) (play_all console sequence_ops l).0
start-play_all-Follows_example =
    start-play_all-Follows console true builder calls sequence_ops blank refl two_calls

engine_sequence-IsQuiet_example :
    let b =
      chain calls (
        Engine.sequence (Engine.with_style Style.modern (Engine.new true true)) (codes "deploy")) in
    (l : LiveSequence) × (Sequence.start console true b blank ≡ some l)
    × IsQuiet blank (play_all console sequence_ops l).1
engine_sequence-IsQuiet_example =
    engine_sequence-IsQuiet console true true Style.modern (codes "deploy") calls true sequence_ops
      blank refl
