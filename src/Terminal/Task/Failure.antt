-- ===== src/Terminal/Task/Failure.antt =====
-- What a failed stage and the bulk `fail` leave.
use knot_ops.Prelude.{
  true, false, not, ◌&&◌, ◌||◌, Text, List, [], ◌∷◌, ◌≡◌, refl, ◌∙◌, inl, inr, arith, is_empty,
  contains, insert, contains-insert, contains-remove, text_eq, text_eq_iff,
}
use knot_ops.Terminal.Console.{Console, Screen}
use knot_ops.Terminal.Report.{ErrorReport}
use knot_ops.Terminal.Task.Stages.{TaskEntry, ids}
use knot_ops.Terminal.Task.State.{Task, Live, set_failed_and_clear}
use knot_ops.Terminal.Task.Ops.{mark_failed, fail_by_id, fail_each, perform_fail}
use knot_ops.Terminal.Task.Settle.{settle}
use knot_ops.Terminal.Task.Outcome.{fail_by_id-Outcome}

is_empty-insert : (k : Text) (s : List Text) → is_empty (insert k s) ≡ false
unfolding insert contains
is_empty-insert k [] = refl
is_empty-insert k (x ∷ s) = ground arith

settle-mark_failed :
    (id : Text) (t : Task) (es : List TaskEntry)
    → settle (record (mark_failed id t) { entries = es })
      ≡ record (mark_failed id t) { entries = es; is_finished = true }
unfolding settle mark_failed
settle-mark_failed id t es = ground (arith, is_empty-insert id t.failed_stages)

-- Failing a stage that the task has ends the task, whatever its state, and keeps its stages; the
-- stage joins the failed ones and leaves the finished ones, where all others stay; the result
-- tells whether the task was unfinished.
pub fail_by_id_ends :
    (c : Console) (id : Text) (report : ErrorReport) (t : Task) (w : Screen)
    → contains (ids t.entries) id ≡ true
    → let (result, (t', w')) = fail_by_id c id report (t, w) in
      (result ≡ not t.is_finished)
      × (t'.is_finished ≡ true)
      × (ids t'.entries ≡ ids t.entries)
      × ((k : Text) → contains t'.failed_stages k ≡ (text_eq id k || contains t.failed_stages k))
      × ((k : Text)
          → contains t'.finished_stages k ≡ (not (text_eq id k) && contains t.finished_stages k))
unfolding mark_failed
fail_by_id_ends c id report t w known = elim (fail_by_id-Outcome c id t w report) [
  | inl (absent, _) ↦ cc
  | inr (es, _, same, result, settled) ↦
      let e = settled ∙ settle-mark_failed id t es in
      (
        result,
        rw e refl,
        rw e same,
        λ k. rw e (contains-insert id k t.failed_stages),
        λ k. rw e (ground (arith, contains-remove id k t.finished_stages)),
      )
]

-- What the loop of the bulk `fail` has done.
record HasFailed (todo : List Text) (t t' : Task) : Type 0 where
  same_ids : ids t'.entries ≡ ids t.entries
  failed :
      (k : Text) → contains t'.failed_stages k ≡ (contains t.failed_stages k || contains todo k)
  unfinished :
      (k : Text)
      → contains t'.finished_stages k ≡ (contains t.finished_stages k && not (contains todo k))

module _ (c : Console) (report : ErrorReport) where
  fail_each-HasFailed :
      (todo : List Text) (l : Live)
      → ((k : Text) → contains todo k ≡ true → contains (ids l.0.entries) k ≡ true)
      → HasFailed todo l.0 (fail_each c todo report l).0
  unfolding fail_each contains
  fail_each-HasFailed [] l within = record {
    same_ids = refl;
    failed = λ k. ground arith;
    unfinished = λ k. ground arith;
  }
  fail_each-HasFailed (id ∷ rest) l within =
      let (result, ended, same, failed, unfinished) =
        fail_by_id_ends c id report l.0 l.1 (within id (ground (arith, text_eq_iff id id))) in
      let ih =
        fail_each-HasFailed rest (fail_by_id c id report l).1
          (λ k m. rw same (within k (ground arith))) in
      record {
        same_ids = ih.same_ids ∙ same;
        failed = λ k. ground (arith, ih.failed k, failed k);
        unfinished = λ k. ground (arith, ih.unfinished k, unfinished k);
      }

  perform_fail_step :
      (t : Task) (w : Screen)
      → t.is_finished ≡ false
      → perform_fail c report (t, w)
        ≡ set_failed_and_clear c report (fail_each c (ids t.entries) report (t, w))
  unfolding perform_fail
  perform_fail_step t w live = ground arith

  -- The bulk fail ends every unfinished task and clears it of its stages, each of which has then
  -- failed and is not finished.
  pub perform_fail_ends :
      (t : Task) (w : Screen)
      → t.is_finished ≡ false
      → let t' = (perform_fail c report (t, w)).0 in
        (t'.is_finished ≡ true)
        × (t'.entries ≡ [])
        × ((k : Text)
            → contains (ids t.entries) k ≡ true
            → (contains t'.failed_stages k ≡ true) × (contains t'.finished_stages k ≡ false))
  unfolding set_failed_and_clear
  perform_fail_ends t w live =
      let h = fail_each-HasFailed (ids t.entries) (t, w) (λ k m. m) in
      rw (perform_fail_step t w live)
        (refl, refl, λ k m. (ground (arith, h.failed k), ground (arith, h.unfinished k)))
