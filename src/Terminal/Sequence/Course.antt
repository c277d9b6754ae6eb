-- ===== src/Terminal/Sequence/Course.antt =====
-- What a sequence promises, apart from its task and the screen, and that it keeps the promise.
use knot_ops.Prelude.{
  ℕ, ◌+◌, ◌<◌, Bool, false, not, ◌&&◌, Text, Option, none, some, List, [], ◌∷◌, ◌≡◌, ◌≢◌, refl, sym,
  ◌∙◌, inl, inr, arith, contains, subst, length, get_elem?, take, text_eq, ltb, Bool-cases, ap,
}
use knot_ops.Terminal.Console.{Console, Screen}
use knot_ops.Terminal.Report.{ErrorReport}
use knot_ops.Terminal.Sequence.Order.{get_elem?-lt, get_elem?-some, get_elem?-none, take_all}
use knot_ops.Terminal.Sequence.Inv.{IsSequence, live_of_lt}
use knot_ops.Terminal.Sequence.Advance.{HasAdvanced, advance_one}
use knot_ops.Terminal.Sequence.Failure.{HasFailedAt, fail-HasFailedAt}
use knot_ops.Terminal.Sequence.Ending.{exhausted_ignores}
use knot_ops.Terminal.Sequence.{TaskSequence, LiveSequence, new_builder, start, ok, skip, fail}
use knot_ops.Terminal.Sequence.Ids.{ChainStep, chain, first_ids}
use knot_ops.Terminal.Sequence.Start.{chain-Begins}
use knot_ops.Terminal.Sequence.Play.{finished_at_end}
use knot_ops.Terminal.Builder.{TaskBuilder}

-- A call on a sequence that does not give it up.
pub data SequenceOp : Type 0 where
  ok_op : Text → SequenceOp
  skip_op : Text → SequenceOp
  fail_op : ErrorReport → SequenceOp

-- How far a sequence is, and the stage at which it failed.
pub record Course : Type 0 where
  pub at : ℕ
  pub failed_at : Option Text

-- At a stage, a failure ends the sequence and all else takes it to the next one.
unfoldable pub step_at : Option Text → List Text → SequenceOp → Course → Course
step_at none stages op k = k
step_at (some id) stages (ok_op msg) k = record k { at = k.at + 1 }
step_at (some id) stages (skip_op msg) k = record k { at = k.at + 1 }
step_at (some id) stages (fail_op report) k = record { at = length stages; failed_at = some id }

unfoldable pub replay : List Text → List SequenceOp → Course → Course
unfolding step_at
replay stages [] k = k
replay stages (op ∷ ops) k = replay stages ops (step_at (get_elem? stages k.at) stages op k)

unfoldable pub is_at : Option Text → Text → Bool
is_at none k = false
is_at (some id) k = text_eq id k

-- The sequence stands where the course is, its task is finished exactly if the course is behind the
-- last stage, only the stage at which the course failed has failed, and the other stages that the
-- course has passed are finished, and only these.
pub record Follows (stages : List Text) (k : Course) (s : TaskSequence) : Type 0 where
  pub valid : IsSequence s
  pub same_ids : s.all_ids ≡ stages
  pub at : s.current_stage ≡ k.at
  pub ended : s.inner.is_finished ≡ not (ltb k.at (length stages))
  pub failed : (id : Text) → contains s.inner.failed_stages id ≡ is_at k.failed_at id
  pub done :
      (id : Text)
      → contains s.inner.finished_stages id
        ≡ (contains (take k.at stages) id && not (is_at k.failed_at id))

module _ (c : Console) where
  unfoldable pub apply : SequenceOp → LiveSequence → LiveSequence
  apply (ok_op msg) l = ok c msg l
  apply (skip_op msg) l = skip c msg l
  apply (fail_op report) l = fail c report l

  unfoldable pub play_all : List SequenceOp → LiveSequence → LiveSequence
  unfolding apply
  play_all [] l = l
  play_all (op ∷ ops) l = play_all ops (apply op l)

  -- While a sequence has a current stage, its course has not failed.
  faultless_course :
      (stages : List Text) (k : Course) (s : TaskSequence)
      → Follows stages k s
      → s.current_stage < length s.all_ids
      → (id : Text) → is_at k.failed_at id ≡ false
  unfolding contains
  faultless_course stages k s h more id =
      sym (h.failed id)
      ∙ ap (λ l. contains l id) (h.valid.consistent.calm (live_of_lt s h.valid more))

  advanced-Follows :
      (k : Course) (s s' : TaskSequence)
      → Follows s.all_ids k s
      → s.current_stage < length s.all_ids
      → HasAdvanced s s'
      → Follows s.all_ids (record k { at = k.at + 1 }) s'
  unfolding contains
  advanced-Follows k s s' h more a =
      let calm = faultless_course s.all_ids k s h more in
      record {
        valid = a.valid;
        same_ids = a.same_ids;
        at = a.moved ∙ ap (λ n. n + 1) h.at;
        ended = a.finished ∙ ap (λ n. not (ltb (n + 1) (length s.all_ids))) h.at;
        failed = λ id. ap (λ l. contains l id) a.faultless ∙ sym (calm id);
        done = λ id. ground (arith, calm id, a.taken id, a.moved, a.same_ids, h.at);
      }

  failed-Follows :
      (s s' : TaskSequence) (id : Text)
      → HasFailedAt id s s'
      → Follows s.all_ids (record { at = length s.all_ids; failed_at = some id }) s'
  unfolding is_at
  failed-Follows s s' id a = record {
    valid = a.valid;
    same_ids = a.same_ids;
    at = a.at_end;
    ended = a.ended ∙ ground arith;
    failed = a.failed;
    done = λ j. ground (arith, a.others j, take_all s.all_ids (length s.all_ids) (omega arith));
  }

  -- At a stage.
  apply_at-Follows :
      (op : SequenceOp) (k : Course) (l : LiveSequence) (id : Text)
      → Follows l.0.all_ids k l.0
      → get_elem? l.0.all_ids l.0.current_stage ≡ some id
      → Follows l.0.all_ids (step_at (some id) l.0.all_ids op k) (apply op l).0
  unfolding apply step_at
  apply_at-Follows (ok_op msg) k l id h e =
      let more = get_elem?-lt l.0.all_ids l.0.current_stage e in
      advanced-Follows k l.0 (ok c msg l).0 h more (advance_one l.0 h.valid c msg l.1 more).0
  apply_at-Follows (skip_op msg) k l id h e =
      let more = get_elem?-lt l.0.all_ids l.0.current_stage e in
      advanced-Follows k l.0 (skip c msg l).0 h more (advance_one l.0 h.valid c msg l.1 more).1
  apply_at-Follows (fail_op report) k l id h e =
      failed-Follows l.0 (fail c report l).0 id (fail-HasFailedAt c report l.0 l.1 h.valid id e)

  -- Behind the last stage.
  apply_over :
      (op : SequenceOp) (l : LiveSequence)
      → IsSequence l.0
      → l.0.current_stage ≡ length l.0.all_ids
      → apply op l ≡ l
  unfolding apply
  apply_over (ok_op msg) l v at_end = (exhausted_ignores c l.0 l.1 v at_end).0 msg
  apply_over (skip_op msg) l v at_end = (exhausted_ignores c l.0 l.1 v at_end).1 msg
  apply_over (fail_op report) l v at_end = (exhausted_ignores c l.0 l.1 v at_end).2 report

  apply-Follows :
      (op : SequenceOp) (k : Course) (l : LiveSequence)
      → Follows l.0.all_ids k l.0
      → Follows l.0.all_ids (step_at (get_elem? l.0.all_ids k.at) l.0.all_ids op k) (apply op l).0
  unfolding step_at
  apply-Follows op k l h =
      let stages = l.0.all_ids in
      let for_found = λ (o : Option Text). Follows stages (step_at o stages op k) (apply op l).0 in
      elim (Bool-cases (ltb l.0.current_stage (length stages))) [
        | inl more ↦
            let (id, e) = get_elem?-some stages l.0.current_stage (ground arith) in
            subst for_found (sym e ∙ ap (get_elem? stages) h.at) (apply_at-Follows op k l id h e)
        | inr over ↦
            let e = get_elem?-none stages l.0.current_stage (ground arith) in
            subst for_found (sym e ∙ ap (get_elem? stages) h.at) (
              subst (λ x. Follows stages k x.0)
                (sym (apply_over op l h.valid (ground (arith, h.valid.bounded)))) h)
      ]

  -- Any calls of ok, skip and fail on a sequence that is where a course is take it along.
  pub play_all-Follows :
      (ops : List SequenceOp) (stages : List Text) (k : Course) (l : LiveSequence)
      → Follows stages k l.0
      → Follows stages (replay stages ops k) (play_all ops l).0
  unfolding play_all replay
  play_all-Follows [] stages k l h = h
  play_all-Follows (op ∷ ops) stages k l h =
      let here = subst (λ known. Follows known k l.0) (sym h.same_ids) h in
      let next =
        subst (λ known. Follows known (step_at (get_elem? known k.at) known op k) (apply op l).0)
          h.same_ids (apply-Follows op k l here) in
      play_all-Follows ops stages (step_at (get_elem? stages k.at) stages op k) (apply op l) next

-- The course of a new sequence.
abbrev pub beginning : Course
beginning = record { at = 0; failed_at = none }

has_first : (l : List Text) → l ≢ [] → 0 < length l
has_first [] some_stage = absurd (some_stage refl)
has_first (x ∷ l) some_stage = omega arith

beginning-Follows :
    (s : TaskSequence)
    → IsSequence s
    → s.current_stage ≡ 0
    → s.all_ids ≢ []
    → Follows s.all_ids beginning s
unfolding is_at contains
beginning-Follows s v at_first some_stage =
    let some_left = has_first s.all_ids some_stage in
    let live = live_of_lt s v (rw at_first some_left) in
    record {
      valid = v;
      same_ids = refl;
      at = at_first;
      ended = finished_at_end s v some_stage ∙ ap (λ n. not (ltb n (length s.all_ids))) at_first;
      failed = λ id. ap (λ l. contains l id) (v.consistent.calm live);
      done = λ id. v.progress live id ∙ ap (λ n. contains (take n s.all_ids) id) at_first;
    }

-- A sequence that was started from any chain of with_stage and with_group calls with a stage is,
-- after any calls of ok, skip and fail, where an abstract course is that knows only how many
-- stages it has passed and the one at which it failed: at the same position; its task is finished
-- exactly if the course is behind the last stage; only the stage at which the course failed has
-- failed; exactly the other stages passed are finished; and the invariant holds.
pub start-play_all-Follows :
    (c : Console) (auto_indent : Bool) (b : TaskBuilder) (cs : List ChainStep)
    (ops : List SequenceOp) (w : Screen)
    → b.steps ≡ []
    → let b' = chain cs (new_builder b) in
      let stages = first_ids b'.stage_counter in
      stages ≢ []
      → (l : LiveSequence) × (start c auto_indent b' w ≡ some l)
        × Follows stages (replay stages ops beginning) (play_all c ops l).0
start-play_all-Follows c auto_indent b cs ops w none_yet some_stage =
    let stages = first_ids (chain cs (new_builder b)).stage_counter in
    let (l, e, v, at_first, same, _) = (chain-Begins c auto_indent b cs w none_yet).0 in
    let h = beginning-Follows l.0 v at_first (λ none_there. some_stage (sym same ∙ none_there)) in
    (
      l,
      e,
      play_all-Follows c ops stages beginning l
          (subst (λ known. Follows known beginning l.0) same h),
    )
