-- ===== src/Terminal/Sequence/Ending.antt =====
-- How a sequence ends: by a failure, by `finish`, and what it does after its end.
use knot_ops.Prelude.{
  ℕ, ◌≤◌, ◌<◌, true, Text, codes, List, [], ◌∷◌, ◌≡◌, ◌≢◌, refl, sym, ◌∙◌, inl, inr, arith, length,
  drop, ltb, Bool-cases,
}
use knot_ops.Terminal.Console.{Console, Screen}
use knot_ops.Terminal.Report.{ErrorReport}
use knot_ops.Terminal.Task.{Live, skip_by_id}
use knot_ops.Terminal.Task.Bulk.{IsCompleted, each, each_completes}
use knot_ops.Terminal.Task.Outcome.{skip_by_id-Outcome}
use knot_ops.Terminal.Sequence.Order.{get_elem?-some, get_elem?-none, take_or_drop}
use knot_ops.Terminal.Sequence.Inv.{IsSequence, live_of_lt}
use knot_ops.Terminal.Sequence.Advance.{set_completed_done}
use knot_ops.Terminal.Sequence.{
  TaskSequence, ok, skip, fail, finish, complete, skip_ids, skip_stages,
}

skip_ids-each :
    (c : Console) (todo : List Text) (msg : Text) (l : Live)
    → skip_ids c todo msg l ≡ each (λ id l'. skip_by_id c id msg l') todo l
unfolding skip_ids each
skip_ids-each c [] msg l = refl
skip_ids-each c (id ∷ rest) msg l = skip_ids-each c rest msg (skip_by_id c id msg l).1

nonempty : (l : List Text) {i : ℕ} → l ≡ [] → i < length l → ⊥
nonempty [] e h = elim h [ ]
nonempty (x ∷ l) e h = cc

-- What is left to do, done by skipping.
abbrev skipped : Console → TaskSequence → Screen → Live
skipped c s w =
    each (λ id l. skip_by_id c id (codes "skipped") l) (drop s.current_stage s.all_ids) (s.inner, w)

module _ (c : Console) (s : TaskSequence) (w : Screen) (v : IsSequence s) where
  skipped-IsCompleted : s.current_stage < length s.all_ids → IsCompleted (skipped c s w).0
  skipped-IsCompleted more =
      let live = live_of_lt s v more in
      let (id, e) = get_elem?-some s.all_ids s.current_stage more in
      each_completes (λ id l. skip_by_id c id (codes "skipped") l)
        (λ id l. skip_by_id-Outcome c id l.0 l.1 (codes "skipped")) (drop s.current_stage s.all_ids)
        (s.inner, w) v.consistent live
        (λ none_known. nonempty s.all_ids (sym (v.known live) ∙ none_known) more)
        (λ k m.
          rw (v.progress live k, ← take_or_drop s.all_ids s.current_stage k)
            (rw (← v.known live) m))
        (λ k m. rw (v.known live) (ground (arith, take_or_drop s.all_ids s.current_stage k)))

  finish_step :
      (msg : Text)
      → s.current_stage < length s.all_ids
      → finish c msg (s, w) ≡ (
        record s { inner = (skipped c s w).0; current_stage = length s.all_ids },
        (skipped c s w).1,
      )
  unfolding finish complete skip_stages
  finish_step msg more = ground (
    arith,
    skip_ids-each c (drop s.current_stage s.all_ids) (codes "skipped") (s.inner, w),
    set_completed_done c msg (skipped c s w).0 (skipped c s w).1 (skipped-IsCompleted more).ended,
  )

  -- Called before the end of a sequence that meets the invariant, finish leaves the task finished,
  -- cleared of its stages and without a failed stage, and the position behind the last stage.
  pub finish_completes :
      (msg : Text)
      → s.current_stage < length s.all_ids
      → let s' = (finish c msg (s, w)).0 in
        IsCompleted s'.inner × (s'.current_stage ≡ length s.all_ids)
  finish_completes msg more = rw (finish_step msg more) (skipped-IsCompleted more, refl)

  -- A sequence of stages whose position is behind the last one has a finished task.
  over : s.all_ids ≢ [] → s.current_stage ≡ length s.all_ids → s.inner.is_finished ≡ true
  over some_stage at_end = elim (Bool-cases s.inner.is_finished) [
    | inl done ↦ done
    | inr live ↦ elim (v.going live) [
      | inl more ↦ absurd (omega arith)
      | inr empty ↦ absurd (some_stage empty)
    ]
  ]

  finish_done :
      (msg : Text)
      → length s.all_ids ≤ s.current_stage
      → s.inner.is_finished ≡ true
      → finish c msg (s, w) ≡ (s, w)
  unfolding finish complete
  finish_done msg at_end done = ground (arith, set_completed_done c msg s.inner w done)

  -- Behind its last stage, a sequence that meets the invariant ignores ok, skip and fail: neither
  -- the sequence nor the screen changes.
  pub exhausted_ignores :
      s.current_stage ≡ length s.all_ids
      → ((msg : Text) → ok c msg (s, w) ≡ (s, w))
        × ((msg : Text) → skip c msg (s, w) ≡ (s, w))
        × ((report : ErrorReport) → fail c report (s, w) ≡ (s, w))
  unfolding ok skip fail
  exhausted_ignores at_end =
      let e = get_elem?-none s.all_ids s.current_stage (omega arith) in
      (λ msg. rw (e, ok) refl, λ msg. rw (e, skip) refl, λ report. rw (e, fail) refl)

  -- On a sequence that meets the invariant and has a stage, finish has the same outcome, on the
  -- task and on the screen, for every two messages.
  pub finish_message_ignored :
      (msg msg' : Text) → s.all_ids ≢ [] → finish c msg (s, w) ≡ finish c msg' (s, w)
  finish_message_ignored msg msg' some_stage =
      elim (Bool-cases (ltb s.current_stage (length s.all_ids))) [
        | inl more ↦ finish_step msg (ground arith) ∙ sym (finish_step msg' (ground arith))
        | inr at_end ↦
            let e : s.current_stage ≡ length s.all_ids = ground (arith, v.bounded) in
            finish_done msg (omega arith) (over some_stage e)
            ∙ sym (finish_done msg' (omega arith) (over some_stage e))
      ]
