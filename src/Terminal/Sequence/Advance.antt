-- ===== src/Terminal/Sequence/Advance.antt =====
-- `ok` and `skip` move a sequence on by one stage.
use knot_ops.Prelude.{
  suc, ◌+◌, ◌<◌, true, false, not, Text, codes, some, [], ◌≡◌, refl, ◌∙◌, inl, inr, arith, contains,
  insert, contains-insert, length, get_elem?, take, all, ltb, Bool-cases,
}
use native.Mathlib.Numerals.{add-one}
use knot_ops.Terminal.Console.{Console, Screen}
use knot_ops.Terminal.Task.{ids, Task, Live, ok_by_id, skip_by_id, set_completed}
use knot_ops.Terminal.Task.Inv.{IsConsistent, ok_by_id-IsConsistent, skip_by_id-IsConsistent}
use knot_ops.Terminal.Task.Results.{Progress, finish_by_id-Progress}
use knot_ops.Terminal.Sequence.Order.{
  contains-get_elem?, get_elem?-lt, get_elem?-some, contains-take-suc, all_taken,
}
use knot_ops.Terminal.Sequence.Inv.{IsSequence, live_of_lt, activate-IsSequence}
use knot_ops.Terminal.Sequence.{TaskSequence, around, advance, go_on, ok, skip}

-- The sequence has moved on by one stage, and its task is finished exactly if that was the last.
pub record HasAdvanced (s s' : TaskSequence) : Type 0 where
  pub valid : IsSequence s'
  pub moved : s'.current_stage ≡ s.current_stage + 1
  pub same_ids : s'.all_ids ≡ s.all_ids
  pub finished : s'.inner.is_finished ≡ not (ltb (s.current_stage + 1) (length s.all_ids))
  pub faultless : s'.inner.failed_stages ≡ []
  pub taken :
      (k : Text)
      → contains s'.inner.finished_stages k ≡ contains (take s'.current_stage s'.all_ids) k

-- A finished task stays as it is.
pub set_completed_done :
    (c : Console) (msg : Text) (t : Task) (w : Screen)
    → t.is_finished ≡ true
    → set_completed c msg (t, w) ≡ (t, w)
unfolding set_completed
set_completed_done c msg t w done = ground arith

module _ (s : TaskSequence) (v : IsSequence s) (id : Text)
    (e : get_elem? s.all_ids s.current_stage ≡ some id) where
  still_live : s.inner.is_finished ≡ false
  still_live = live_of_lt s v (get_elem?-lt s.all_ids s.current_stage e)

  taken_with :
      (k : Text)
      → contains (insert id s.inner.finished_stages) k
        ≡ contains (take (suc s.current_stage) s.all_ids) k
  taken_with k = ground (
    arith,
    contains-insert id k s.inner.finished_stages,
    v.progress still_live k,
    contains-take-suc s.all_ids s.current_stage k e,
  )

  last_done :
      all (contains (insert id s.inner.finished_stages)) (ids s.inner.entries)
      ≡ not (ltb (s.current_stage + 1) (length s.all_ids))
  last_done = rw (v.known still_live) (
      rw add-one (
        all_taken s.all_ids (suc s.current_stage) (insert id s.inner.finished_stages) v.distinct
          taken_with))

  -- The sequence behind the current stage, its task having made progress by that stage.
  progressed :
      (l : Live)
      → IsConsistent l.0
      → Progress id s.inner l.0
      → HasAdvanced s (advance (around s l)).0
  progressed l consistent (done, calm, ended, left) =
      let h = get_elem?-lt s.all_ids s.current_stage e in
      record {
        valid = record {
          consistent = consistent;
          distinct = v.distinct;
          bounded = omega arith;
          ended = λ over. ground (arith, last_done);
          known = λ live. ground (arith, v.known still_live);
          progress = λ live k. rw (add-one, done) (taken_with k);
          going = λ live. inl (ground (arith, last_done));
        };
        moved = refl;
        same_ids = refl;
        finished = ended ∙ last_done;
        faultless = calm;
        taken = λ k. rw (add-one, done) (taken_with k);
      }

module _ (s : TaskSequence) (v : IsSequence s) where
  go_on-HasAdvanced :
      (c : Console) (m : TaskSequence) (w : Screen)
      → HasAdvanced s m
      → HasAdvanced s (go_on c (m, w)).0
  unfolding go_on
  go_on-HasAdvanced c m w h = elim (Bool-cases (ltb m.current_stage (length m.all_ids))) [
    | inl more ↦
        let (valid, moved, same, finished, failed) = activate-IsSequence c m w h.valid in
        rw more (record {
          valid = valid;
          moved = moved ∙ h.moved;
          same_ids = same ∙ h.same_ids;
          finished = finished ∙ h.finished;
          faultless = failed ∙ h.faultless;
          taken = valid.progress (live_of_lt _ valid (ground (arith, moved, same)));
        })
    | inr over ↦
        rw
          (
            over,
            set_completed_done c (codes "success") m.inner w
                (ground (arith, h.finished, h.moved, h.same_ids)),
          )
          h
  ]

  -- With a current stage and the invariant, ok and skip each move the sequence on by exactly one
  -- stage, keep the invariant and the stages, leave no failed stage, and finish the task exactly
  -- if the stage was the last.
  pub advance_one :
      (c : Console) (msg : Text) (w : Screen)
      → s.current_stage < length s.all_ids
      → HasAdvanced s (ok c msg (s, w)).0 × HasAdvanced s (skip c msg (s, w)).0
  unfolding ok skip
  advance_one c msg w more =
      let (id, e) = get_elem?-some s.all_ids s.current_stage more in
      let live = live_of_lt s v more in
      let (by_ok, by_skip) =
        finish_by_id-Progress c id msg s.inner w v.consistent live
          (rw (v.known live) (contains-get_elem? s.all_ids s.current_stage e)) in
      (
        rw (e, ok)
            (go_on-HasAdvanced c _ _ (
              progressed s v id e (ok_by_id c id msg (s.inner, w)).1
                (ok_by_id-IsConsistent c id s.inner w v.consistent msg) by_ok)),
        rw (e, skip)
            (go_on-HasAdvanced c _ _ (
              progressed s v id e (skip_by_id c id msg (s.inner, w)).1
                (skip_by_id-IsConsistent c id s.inner w v.consistent msg) by_skip)),
      )
