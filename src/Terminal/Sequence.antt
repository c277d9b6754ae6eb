-- ===== src/Terminal/Sequence.antt =====
-- sequence.rs and sequence/builder.rs: stages that run strictly one after another.
mod Order
pub mod Inv
pub mod Advance
pub mod Ending
pub mod Failure
pub mod Ids
pub mod Start
pub mod Play
pub mod Course
pub mod Quiet
use knot_ops.Prelude.{
  ℕ, ◌+◌, Bool, true, false, Text, codes, decimal, Option, none, some, List, [], ◌∷◌, ◌++◌, length,
  get_elem?, drop, ltb, if◌then◌else◌,
}
use knot_ops.Terminal.Console.{Console, Screen}
use knot_ops.Terminal.Report.{ErrorReport}
use knot_ops.Terminal.Task.{
  ids, Task, Live, run_by_id, ok_by_id, fail_by_id, skip_by_id, set_completed,
}
use knot_ops.Terminal.Builder.{TaskBuilder}
use knot_ops.Terminal.Builder

pub record TaskSequence : Type 0 where
  pub inner : Task
  pub current_stage : ℕ
  pub all_ids : List Text

-- A sequence and the screen that it writes to.
abbrev pub LiveSequence : Type 0
LiveSequence = TaskSequence × Screen

-- The sequence around a task that has changed.
abbrev pub around : TaskSequence → Live → LiveSequence
around s (t, w) = (record s { inner = t }, w)

abbrev pub advance : LiveSequence → LiveSequence
advance (s, w) = (record s { current_stage = s.current_stage + 1 }, w)

module _ (c : Console) where
  unfoldable pub activate_current_stage : LiveSequence → LiveSequence
  activate_current_stage (s, w) = elim (get_elem? s.all_ids s.current_stage) [
    | none ↦ (s, w)
    | some id ↦ around s (run_by_id c id none (s.inner, w)).1
  ]

  unfoldable pub new : Live → Bool → LiveSequence
  unfolding activate_current_stage
  new (task, w) autostart =
      let s : LiveSequence =
        (record { inner = task; current_stage = 0; all_ids = ids task.entries }, w) in
      if autostart then activate_current_stage s else s

  -- The end of `ok` and of `skip`: the next stage runs, or the task is complete.
  unfoldable pub go_on : LiveSequence → LiveSequence
  unfolding activate_current_stage
  go_on (s, w) =
      if ltb s.current_stage (length s.all_ids)
      then activate_current_stage (s, w)
      else around s (set_completed c (codes "success") (s.inner, w))

  unfoldable pub ok : Text → LiveSequence → LiveSequence
  unfolding go_on
  ok result_msg (s, w) = elim (get_elem? s.all_ids s.current_stage) [
    | none ↦ (s, w)
    | some id ↦ go_on (advance (around s (ok_by_id c id result_msg (s.inner, w)).1))
  ]

  skip_ids : List Text → Text → Live → Live
  skip_ids [] msg l = l
  skip_ids (id ∷ rest) msg l = skip_ids rest msg (skip_by_id c id msg l).1

  -- The slice of the loop is within bounds wherever this is called.
  unfoldable pub skip_stages : ℕ → Text → LiveSequence → LiveSequence
  unfolding skip_ids
  skip_stages start_from msg (s, w) =
      let (t, w1) = skip_ids (drop start_from s.all_ids) msg (s.inner, w) in
      (record s { inner = t; current_stage = length s.all_ids }, w1)

  unfoldable pub skip_rest : LiveSequence → LiveSequence
  unfolding skip_stages
  skip_rest (s, w) =
      if ltb s.current_stage (length s.all_ids)
      then skip_stages s.current_stage (codes "skipped due to previous error") (s, w)
      else (s, w)

  unfoldable pub fail : ErrorReport → LiveSequence → LiveSequence
  unfolding skip_rest
  fail report (s, w) = elim (get_elem? s.all_ids s.current_stage) [
    | none ↦ (s, w)
    | some id ↦ skip_rest (advance (around s (fail_by_id c id report (s.inner, w)).1))
  ]

  unfoldable pub skip : Text → LiveSequence → LiveSequence
  unfolding go_on
  skip result_msg (s, w) = elim (get_elem? s.all_ids s.current_stage) [
    | none ↦ (s, w)
    | some id ↦ go_on (advance (around s (skip_by_id c id result_msg (s.inner, w)).1))
  ]

  unfoldable pub complete : Text → LiveSequence → LiveSequence
  complete result_msg (s, w) = around s (set_completed c result_msg (s.inner, w))

  unfoldable pub finish : Text → LiveSequence → LiveSequence
  unfolding skip_stages complete
  finish result_msg (s, w) = complete result_msg (
      if ltb s.current_stage (length s.all_ids)
      then skip_stages s.current_stage (codes "skipped") (s, w)
      else (s, w))

-- `TaskSequenceBuilder`
pub record TaskSequenceBuilder : Type 0 where
  pub inner : TaskBuilder
  pub stage_counter : ℕ

unfoldable pub new_builder : TaskBuilder → TaskSequenceBuilder
new_builder b = record { inner = b; stage_counter = 0 }

-- `format!("stage_{}", id)`
unfoldable pub stage_id : ℕ → Text
stage_id n = codes "stage_" ++ decimal n

unfoldable pub with_stage : Text → TaskSequenceBuilder → TaskSequenceBuilder
unfolding stage_id
with_stage stage_name b = record b {
  inner = Builder.with_stage (stage_id b.stage_counter) stage_name false b.inner;
  stage_counter = b.stage_counter + 1;
}

unfoldable pub with_group : Option Text → TaskSequenceBuilder → TaskSequenceBuilder
with_group header b = record b { inner = Builder.with_group header b.inner }

module _ (c : Console) where
  -- A task that was built becomes a sequence.
  unfoldable pub sequenced : Option Live → Bool → Option LiveSequence
  sequenced none autostart = none
  sequenced (some l) autostart = some (new c l autostart)

  unfoldable pub start : Bool → TaskSequenceBuilder → Screen → Option LiveSequence
  unfolding sequenced
  start auto_indent b w = sequenced (Builder.start c auto_indent b.inner w) true

  unfoldable pub build : Bool → TaskSequenceBuilder → Screen → Option LiveSequence
  unfolding sequenced
  build auto_indent b w = sequenced (Builder.start c auto_indent b.inner w) false
