-- ===== src/Terminal/Sequence/Failure.antt =====
-- What `TaskSequence::fail` leaves.
use knot_ops.Prelude.{
  suc, ◌+◌, ◌≤◌, true, not, ◌&&◌, ◌||◌, Text, codes, some, List, [], ◌∷◌, ◌≡◌, refl, ◌∙◌, inl, inr,
  arith, contains, contains-insert, contains-remove, length, get_elem?, drop, text_eq, text_eq_iff,
  ltb, Bool-cases,
}
use native.Mathlib.Numerals.{add-one}
use knot_ops.Terminal.Console.{Console, Screen}
use knot_ops.Terminal.Report.{ErrorReport}
use knot_ops.Terminal.Task.{ids, Task, Live, TaskEntry, fail_by_id, skip_by_id, mark_finished}
use knot_ops.Terminal.Task.Inv.{IsConsistent, fail_by_id-IsConsistent, skip_by_id-IsConsistent}
use knot_ops.Terminal.Task.Failure.{fail_by_id_ends}
use knot_ops.Terminal.Task.Outcome.{skip_by_id-Outcome}
use knot_ops.Terminal.Task.Settle.{settle}
use knot_ops.Terminal.Sequence.Order.{
  contains-get_elem?, get_elem?-lt, take_or_drop, contains-drop, drop_lacks, drop_all,
}
use knot_ops.Terminal.Sequence.Inv.{IsSequence, live_of_lt}
use knot_ops.Terminal.Sequence.{TaskSequence, fail, skip_ids, skip_stages, skip_rest}

-- What skipping stages of a finished task does to it.
record HasSkipped (todo : List Text) (t t' : Task) : Type 0 where
  consistent : IsConsistent t'
  ended : t'.is_finished ≡ true
  same_ids : ids t'.entries ≡ ids t.entries
  finished :
      (k : Text) → contains t'.finished_stages k ≡ (contains t.finished_stages k || contains todo k)
  failed :
      (k : Text)
      → contains t'.failed_stages k ≡ (contains t.failed_stages k && not (contains todo k))

settle-mark_finished :
    (id : Text) (t : Task) (es : List TaskEntry)
    → t.is_finished ≡ true
    → settle (record (mark_finished id t) { entries = es })
      ≡ record (mark_finished id t) { entries = es }
unfolding settle mark_finished
settle-mark_finished id t es done = ground arith

module _ (c : Console) (msg : Text) where
  skip_by_id-HasSkipped :
      (id : Text) (t : Task) (w : Screen)
      → IsConsistent t
      → t.is_finished ≡ true
      → contains (ids t.entries) id ≡ true
      → HasSkipped (id ∷ []) t (skip_by_id c id msg (t, w)).1.0
  unfolding mark_finished contains
  skip_by_id-HasSkipped id t w v done known = elim (skip_by_id-Outcome c id t w msg) [
    | inl (absent, _) ↦ cc
    | inr (es, _, same, _, settled) ↦
        let e = settled ∙ settle-mark_finished id t es done in
        record {
          consistent = skip_by_id-IsConsistent c id t w v msg;
          ended = rw e done;
          same_ids = rw e same;
          finished = λ k. rw e (ground (arith, contains-insert id k t.finished_stages));
          failed = λ k. rw e (ground (arith, contains-remove id k t.failed_stages));
        }
  ]

  skip_ids-HasSkipped :
      (todo : List Text) (l : Live)
      → IsConsistent l.0
      → l.0.is_finished ≡ true
      → ((k : Text) → contains todo k ≡ true → contains (ids l.0.entries) k ≡ true)
      → HasSkipped todo l.0 (skip_ids c todo msg l).0
  unfolding skip_ids contains
  skip_ids-HasSkipped [] l v done within = record {
    consistent = v;
    ended = done;
    same_ids = refl;
    finished = λ k. ground arith;
    failed = λ k. ground arith;
  }
  skip_ids-HasSkipped (id ∷ rest) l v done within =
      let h =
        skip_by_id-HasSkipped id l.0 l.1 v done (within id (ground (arith, text_eq_iff id id))) in
      let ih =
        skip_ids-HasSkipped rest (skip_by_id c id msg l).1 h.consistent h.ended
          (λ k m. rw h.same_ids (within k (ground arith))) in
      record {
        consistent = ih.consistent;
        ended = ih.ended;
        same_ids = ih.same_ids ∙ h.same_ids;
        finished = λ k. ground (arith, ih.finished k, h.finished k);
        failed = λ k. ground (arith, ih.failed k, h.failed k);
      }

-- Whether or not a stage is left, `skip_rest` skips what is left.
skip_rest_step :
    (c : Console) (s : TaskSequence) (w : Screen)
    → s.current_stage ≤ length s.all_ids
    → let l =
        skip_ids c
          (drop s.current_stage s.all_ids)
          (codes "skipped due to previous error")
          (s.inner, w) in
      skip_rest c (s, w) ≡ (record s { inner = l.0; current_stage = length s.all_ids }, l.1)
unfolding skip_rest skip_stages skip_ids
skip_rest_step c s w h = elim (Bool-cases (ltb s.current_stage (length s.all_ids))) [
  | inl more ↦ rw (more, skip_rest) refl
  | inr at_end ↦ ground (arith, drop_all s.all_ids s.current_stage)
]

-- A sequence that failed at the stage `id`.
pub record HasFailedAt (id : Text) (s s' : TaskSequence) : Type 0 where
  pub valid : IsSequence s'
  pub same_ids : s'.all_ids ≡ s.all_ids
  pub ended : s'.inner.is_finished ≡ true
  pub at_end : s'.current_stage ≡ length s.all_ids
  pub failed : (k : Text) → contains s'.inner.failed_stages k ≡ text_eq id k
  pub others :
      (k : Text)
      → contains s'.inner.finished_stages k ≡ (contains s.all_ids k && not (text_eq id k))

module _ (c : Console) (report : ErrorReport) (s : TaskSequence) (w : Screen)
    (v : IsSequence s) where
  -- The stages that are left, skipped after the failure of the current one.
  failed_rest :
      (id : Text)
      → get_elem? s.all_ids s.current_stage ≡ some id
      → (t : Task)
      → HasSkipped
          (drop (suc s.current_stage) s.all_ids)
          (fail_by_id c id report (s.inner, w)).1.0
          t
      → HasFailedAt id s (record s { inner = t; current_stage = length s.all_ids })
  unfolding contains
  failed_rest id e t h =
      let more = get_elem?-lt s.all_ids s.current_stage e in
      let live = live_of_lt s v more in
      let (_, _, _, failed, finished) =
        fail_by_id_ends c id report s.inner w
          (rw (v.known live) (contains-get_elem? s.all_ids s.current_stage e)) in
      record {
        valid = record {
          consistent = h.consistent;
          distinct = v.distinct;
          bounded = omega arith;
          ended = λ _. refl;
          known = λ e'. cc h.ended;
          progress = λ e'. cc h.ended;
          going = λ e'. cc h.ended;
        };
        same_ids = refl;
        ended = h.ended;
        at_end = refl;
        failed = λ k. ground (
          arith,
          h.failed k,
          failed k,
          v.consistent.calm live,
          drop_lacks s.all_ids s.current_stage v.distinct e,
          text_eq_iff id k,
        );
        others = λ k. ground (
          arith,
          h.finished k,
          finished k,
          v.progress live k,
          take_or_drop s.all_ids s.current_stage k,
          contains-drop s.all_ids s.current_stage k e,
          drop_lacks s.all_ids s.current_stage v.distinct e,
          text_eq_iff id k,
        );
      }

  -- With a current stage and the invariant, fail ends the sequence: its position is behind the
  -- last stage, its task is finished, exactly the current stage has failed, every other stage is
  -- finished, and the invariant holds.
  pub fail-HasFailedAt :
      (id : Text)
      → get_elem? s.all_ids s.current_stage ≡ some id
      → HasFailedAt id s (fail c report (s, w)).0
  unfolding fail
  fail-HasFailedAt id e =
      let more = get_elem?-lt s.all_ids s.current_stage e in
      let live = live_of_lt s v more in
      let known : contains (ids s.inner.entries) id ≡ true =
        rw (v.known live) (contains-get_elem? s.all_ids s.current_stage e) in
      let (_, ended, same, _, _) = fail_by_id_ends c id report s.inner w known in
      let l = (fail_by_id c id report (s.inner, w)).1 in
      rw
        (
          e,
          fail,
          skip_rest_step c (record s { inner = l.0; current_stage = s.current_stage + 1 }) l.1
              (omega arith),
          add-one,
        )
        (failed_rest id e _ (
          skip_ids-HasSkipped c (codes "skipped due to previous error")
            (drop (suc s.current_stage) s.all_ids) l
            (fail_by_id-IsConsistent c id s.inner w v.consistent report) ended
            (λ k m.
              rw (same, v.known live)
                (ground (arith, take_or_drop s.all_ids (suc s.current_stage) k)))))
