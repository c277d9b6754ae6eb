-- ===== src/Terminal/Scenarios/Sequences.antt =====
-- A sequence of two stages, and what the theorems about sequences say of it.
use knot_ops.Prelude.{
  false, true, codes, none, List, [], ◌∷◌, ◌≡◌, ◌≢◌, refl, inl, arith, contains, text_eq, length,
  leb,
}
use knot_ops.Terminal.Scenarios.{
  console, blank, report, fetch, link, two_stages, two_stages-IsConsistent,
}
use knot_ops.Terminal.Style
use knot_ops.Terminal.Renderer.{plain_mode}
use knot_ops.Terminal.Task.{ids, stages}
use knot_ops.Terminal.Builder.{TaskBuilder}
use knot_ops.Terminal.Sequence.{TaskSequence, new_builder, fail, finish, start, build}
use knot_ops.Terminal.Sequence.Inv.{IsSequence}
use knot_ops.Terminal.Sequence.Ending.{finish_completes, finish_message_ignored}
use knot_ops.Terminal.Sequence.Failure.{HasFailedAt, fail-HasFailedAt}
use knot_ops.Terminal.Sequence.Ids.{ChainStep, staged, grouped, chain}
use knot_ops.Terminal.Sequence.Start.{Begins, chain-Begins}
use knot_ops.Terminal.Sequence.Play.{Move, ok_move, skip_move, play, play_completes}
use knot_ops.Terminal.Task.Bulk.{IsCompleted}

abbrev two_steps : TaskSequence
two_steps = record { inner = two_stages; current_stage = 0; all_ids = fetch ∷ link ∷ [] }

two_steps-IsSequence : IsSequence two_steps
unfolding contains text_eq ids stages
two_steps-IsSequence = record {
  consistent = two_stages-IsConsistent;
  distinct = (refl, (refl, tt));
  bounded = omega arith;
  ended = λ over. cc;
  known = λ _. refl;
  progress = λ _ k. refl;
  going = λ _. inl (omega arith);
}

has_steps : two_steps.all_ids ≢ []
has_steps e = cc

-- The same sequence at its end.
abbrev no_steps : TaskSequence
no_steps = record {
  inner = record two_stages { is_finished = true };
  current_stage = 2;
  all_ids = fetch ∷ link ∷ [];
}

no_steps-IsSequence : IsSequence no_steps
unfolding contains text_eq
no_steps-IsSequence = record {
  consistent = record { disjoint = λ k h. refl; calm = λ live. cc; pending = λ live. cc };
  distinct = (refl, (refl, tt));
  bounded = omega arith;
  ended = λ _. refl;
  known = λ live. cc;
  progress = λ live k. cc;
  going = λ live. cc;
}

fail-HasFailedAt_example : HasFailedAt fetch two_steps (fail console report (two_steps, blank)).0
fail-HasFailedAt_example =
    fail-HasFailedAt console report two_steps blank two_steps-IsSequence fetch refl

finish_completes_example :
    let s' = (finish console (codes "done") (two_steps, blank)).0 in
    IsCompleted s'.inner × (s'.current_stage ≡ length two_steps.all_ids)
finish_completes_example =
    finish_completes console two_steps blank two_steps-IsSequence (codes "done") (omega arith)

finish_message_ignored_example :
    finish console (codes "shipped") (two_steps, blank)
    ≡ finish console (codes "broken") (two_steps, blank)
finish_message_ignored_example =
    finish_message_ignored console two_steps blank two_steps-IsSequence (codes "shipped")
      (codes "broken") has_steps

abbrev moves : List Move
moves = ok_move (codes "done") ∷ skip_move (codes "late") ∷ ok_move (codes "again") ∷ []

play_completes_example :
    (play console moves (two_steps, blank)).0.inner.is_finished ≡ leb 2 (length moves)
play_completes_example =
    play_completes console moves (two_steps, blank) two_steps-IsSequence refl has_steps

abbrev builder : TaskBuilder
builder = record { name = codes "deploy"; steps = []; style = Style.plain; mode = plain_mode }

abbrev calls : List ChainStep
calls = staged fetch ∷ grouped none ∷ staged link ∷ []

chain-Begins_example :
    let b' = chain calls (new_builder builder) in
    Begins console true b' blank (start console true b' blank)
    × Begins console false b' blank (build console true b' blank)
chain-Begins_example = chain-Begins console true builder calls blank refl
