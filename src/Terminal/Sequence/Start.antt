-- ===== src/Terminal/Sequence/Start.antt =====
-- The sequences that `TaskSequenceBuilder` makes.
use knot_ops.Prelude.{
  Bool, true, false, not, ◌||◌, ◌&&◌, ltb, is_empty, Text, Option, some, List, [], ◌∷◌, ◌≡◌, refl,
  ◌∙◌, arith, contains, text_eq_iff, none,
}
use knot_ops.Terminal.Console.{Console, Screen}
use knot_ops.Terminal.Task.{ids, Live}
use knot_ops.Terminal.Builder.{TaskBuilder, BuilderStep, stage_step, group_step}
use knot_ops.Terminal.Builder
use knot_ops.Terminal.Builder.Steps.{step_ids}
use knot_ops.Terminal.Builder.Start.{IsStarted, IsPainted, start-IsStarted}
use knot_ops.Terminal.Builder.Refusals.{refuses_start}
use knot_ops.Terminal.Renderer.Panics.{refuses_run}
use knot_ops.Terminal.Task.Panics.{EntriesRun, run_by_id_panics}
use knot_ops.Terminal.Sequence.Order.{Distinct}
use knot_ops.Terminal.Sequence.Inv.{IsSequence, activate-IsSequence}
use knot_ops.Terminal.Sequence.{
  LiveSequence, TaskSequenceBuilder, new, new_builder, start, build, sequenced,
  activate_current_stage,
}
use knot_ops.Terminal.Sequence.Ids.{
  first_ids, some_or_nil, first_ids_empty, first_ids-Distinct, IsNumbered, new-IsNumbered,
  ChainStep, chain, chain-IsNumbered,
}

-- Starting the first of the stages panics when a stage of the task does.
activate_panics :
    (c : Console) (bad : Bool) (l : Live) (known : List Text)
    → ids l.0.entries ≡ known
    → l.0.is_finished ≡ false
    → l.0.failed_stages ≡ []
    → EntriesRun c bad l.0.entries
    → (activate_current_stage c
        (record { inner = l.0; current_stage = 0; all_ids = known }, l.1)).1.panicked
      ≡ (l.1.panicked || (not (is_empty known) && bad))
unfolding activate_current_stage contains
activate_panics c bad l [] same live calm runs = ground arith
activate_panics c bad l (id ∷ rest) same live calm runs =
    (run_by_id_panics c bad none id l (rw same (ground (arith, text_eq_iff id id))) live calm
      runs).panics

module _ (c : Console) (b : TaskBuilder) (w : Screen) (l : Live) (v : IsStarted b.steps l.0)
    (p : IsPainted c b w l) where
  idle-IsSequence :
      Distinct (step_ids b.steps)
      → IsSequence (record { inner = l.0; current_stage = 0; all_ids = ids l.0.entries })
  unfolding contains
  idle-IsSequence d = record {
    consistent = v.consistent;
    distinct = rw v.in_order d;
    bounded = omega arith;
    ended = λ over. cc v.live;
    known = λ _. refl;
    progress = λ _ k. v.fresh k;
    going = λ _. some_or_nil (ids l.0.entries);
  }

  new_begins :
      (autostart : Bool)
      → Distinct (step_ids b.steps)
      → let (s, w') = new c l autostart in
        IsSequence s
        × (s.current_stage ≡ 0)
        × (s.all_ids ≡ step_ids b.steps)
        × (w'.panicked ≡ (
            w.panicked
            || refuses_start c b
            || (autostart && not (is_empty (step_ids b.steps)) && refuses_run c b.mode b.style)))
  unfolding new
  new_begins false d = (idle-IsSequence d, refl, v.in_order, ground (arith, p.panics))
  new_begins true d =
      let (valid, same, ids', _, _) = activate-IsSequence c _ l.1 (idle-IsSequence d) in
      (
        valid,
        same,
        ids' ∙ v.in_order,
        activate_panics c (refuses_run c b.mode b.style) l (ids l.0.entries) refl v.live v.calm
              p.runs
            ∙ rw v.in_order (ground (arith, p.panics)),
      )

-- What `start` and `build` give, from a state of the screen: a sequence that meets the invariant, at
-- its first stage, with the ids `stage_0`, `stage_1`, … for its stages. The program panics when the
-- builder's start does, and when there is a first stage that is to run at once and cannot be run.
abbrev pub Begins : Console → Bool → TaskSequenceBuilder → Screen → Option LiveSequence → Type 0
Begins c autostart b w r =
    (l : LiveSequence) × (r ≡ some l)
    × IsSequence l.0
    × (l.0.current_stage ≡ 0)
    × (l.0.all_ids ≡ first_ids b.stage_counter)
    × (l.1.panicked ≡ (
        w.panicked
        || refuses_start c b.inner
        || (autostart && ltb 0 b.stage_counter && refuses_run c b.inner.mode b.inner.style)))

module _ (c : Console) (auto_indent : Bool) (b : TaskSequenceBuilder) (w : Screen) where
  sequenced-Begins :
      (autostart : Bool)
      → IsNumbered b
      → Begins c autostart b w (sequenced c (Builder.start c auto_indent b.inner w) autostart)
  unfolding sequenced
  sequenced-Begins autostart numbered =
      let (l, e, v, p) = start-IsStarted c auto_indent b.inner w in
      let (valid, at_first, ids', panics) =
        new_begins c b.inner w l v p autostart (rw numbered (first_ids-Distinct b.stage_counter)) in
      (
        new c l autostart,
        rw (e, sequenced) refl,
        valid,
        at_first,
        ids' ∙ numbered,
        panics ∙ rw numbered (ground (arith, first_ids_empty b.stage_counter)),
      )

-- After every chain of with_stage and with_group calls on a new sequence builder over a task
-- builder without steps, start and build, in both modes, with a spacer or without, give a sequence
-- that meets the invariant, stands at its first stage, and has the ids stage_0, stage_1 and so on
-- for its stages; the builder's own unwraps never panic, and a template panics exactly if one did
-- before, if one does in the start of the task, or if start, which runs the first stage, finds one
-- and in interactive mode its template is not accepted or its spinner has less than two ticks.
pub chain-Begins :
    (c : Console) (auto_indent : Bool) (b : TaskBuilder) (cs : List ChainStep) (w : Screen)
    → b.steps ≡ []
    → let b' = chain cs (new_builder b) in
      Begins c true b' w (start c auto_indent b' w) × Begins c false b' w (build c auto_indent b' w)
unfolding start build
chain-Begins c auto_indent b cs w none_yet =
    let numbered = chain-IsNumbered cs (new_builder b) (new-IsNumbered b none_yet) in
    (
      sequenced-Begins c auto_indent (chain cs (new_builder b)) w true numbered,
      sequenced-Begins c auto_indent (chain cs (new_builder b)) w false numbered,
    )
