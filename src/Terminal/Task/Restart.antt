-- ===== src/Terminal/Task/Restart.antt =====
-- What running a stage again does, and the bulk `run`.
use knot_ops.Prelude.{
  true, false, not, ◌&&◌, Text, Option, List, [], ◌∷◌, ◌≡◌, refl, ◌∙◌, inl, inr, arith, all,
  contains, remove, contains-remove, contains-all, text_eq_iff, Bool-cases,
}
use knot_ops.Terminal.Console.{Console, Screen}
use knot_ops.Terminal.Task.Stages.{TaskEntry, ids}
use knot_ops.Terminal.Task.State.{Task, Live}
use knot_ops.Terminal.Task.Ops.{mark_running, run_by_id, run_each, perform_run}
use knot_ops.Terminal.Task.Settle.{settle}
use knot_ops.Terminal.Task.Outcome.{run_by_id-Outcome}
use knot_ops.Terminal.Task.Inv.{IsConsistent}

-- A stage that was just taken out of the finished ones keeps the task from its end.
pub not_all_finished :
    (id : Text) (done known : List Text)
    → contains known id ≡ true
    → all (contains (remove id done)) known ≡ false
not_all_finished id done known m = elim (Bool-cases (all (contains (remove id done)) known)) [
  | inl h ↦ ground (
    arith,
    contains-all (remove id done) known id h m,
    contains-remove id id done,
    text_eq_iff id id,
  )
  | inr h ↦ h
]

settle-mark_running :
    (id : Text) (t : Task) (es : List TaskEntry)
    → contains (ids t.entries) id ≡ true
    → ids es ≡ ids t.entries
    → t.is_finished ≡ false
    → t.failed_stages ≡ []
    → settle (record (mark_running id t) { entries = es })
      ≡ record (mark_running id t) { entries = es }
unfolding settle mark_running remove
settle-mark_running id t es known same live calm =
    ground (arith, not_all_finished id t.finished_stages (ids t.entries) known)

-- What a restart leaves of a task.
pub record IsRestarted (todo : List Text) (t t' : Task) : Type 0 where
  pub live : t'.is_finished ≡ false
  pub calm : t'.failed_stages ≡ []
  pub same_ids : ids t'.entries ≡ ids t.entries
  pub reset :
      (k : Text)
      → contains t'.finished_stages k ≡ (not (contains todo k) && contains t.finished_stages k)

module _ (c : Console) (msg : Option Text) where
  pub run_by_id-IsRestarted :
      (id : Text) (t : Task) (w : Screen)
      → contains (ids t.entries) id ≡ true
      → t.is_finished ≡ false
      → t.failed_stages ≡ []
      → IsRestarted (id ∷ []) t (run_by_id c id msg (t, w)).1.0
  unfolding mark_running contains remove
  run_by_id-IsRestarted id t w known live calm = elim (run_by_id-Outcome c id t w msg) [
    | inl (absent, _) ↦ cc
    | inr (es, _, same, _, settled) ↦
        let e = settled ∙ settle-mark_running id t es known same live calm in
        record {
          live = rw e live;
          calm = rw e (rw (calm, remove) refl);
          same_ids = rw e same;
          reset = λ k. rw e (ground (arith, contains-remove id k t.finished_stages));
        }
  ]

  pub run_each-IsRestarted :
      (todo : List Text) (l : Live)
      → ((k : Text) → contains todo k ≡ true → contains (ids l.0.entries) k ≡ true)
      → l.0.is_finished ≡ false
      → l.0.failed_stages ≡ []
      → IsRestarted todo l.0 (run_each c todo msg l).0
  unfolding run_each contains
  run_each-IsRestarted [] l within live calm = record {
    live = live;
    calm = calm;
    same_ids = refl;
    reset = λ k. refl;
  }
  run_each-IsRestarted (id ∷ rest) l within live calm =
      let h =
        run_by_id-IsRestarted id l.0 l.1 (within id (ground (arith, text_eq_iff id id))) live
          calm in
      let ih =
        run_each-IsRestarted rest (run_by_id c id msg l).1
          (λ k m. rw (h.same_ids) (within k (ground arith))) h.live h.calm in
      record {
        live = ih.live;
        calm = ih.calm;
        same_ids = ih.same_ids ∙ h.same_ids;
        reset = λ k. ground (arith, ih.reset k, h.reset k);
      }

  perform_run_step :
      (t : Task) (w : Screen)
      → t.is_finished ≡ false
      → perform_run c msg (t, w) ≡ run_each c (ids t.entries) msg (t, w)
  unfolding perform_run
  perform_run_step t w live = ground arith

  -- The bulk run of an unfinished, consistent task leaves it unfinished, with the same stages,
  -- none of them finished and none failed.
  pub perform_run_restarts :
      (t : Task) (w : Screen)
      → IsConsistent t
      → t.is_finished ≡ false
      → let t' = (perform_run c msg (t, w)).0 in
        (t'.is_finished ≡ false)
        × (t'.failed_stages ≡ [])
        × (ids t'.entries ≡ ids t.entries)
        × ((k : Text) → contains (ids t.entries) k ≡ true → contains t'.finished_stages k ≡ false)
  perform_run_restarts t w v live =
      let h = run_each-IsRestarted (ids t.entries) (t, w) (λ k m. m) live (v.calm live) in
      rw (perform_run_step t w live) (h.live, h.calm, h.same_ids, λ k m. ground (arith, h.reset k))
