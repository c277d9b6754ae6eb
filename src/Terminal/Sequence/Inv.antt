-- ===== src/Terminal/Sequence/Inv.antt =====
-- What holds of a sequence between two operations, and how `ok` and `skip` move it on.
use knot_ops.Prelude.{
  ◌≤◌, ◌<◌, true, false, Text, none, some, [], ◌∷◌, ◌≡◌, refl, sym, ◌∙◌, ◌⊎◌, inl, inr, arith,
  contains, length, get_elem?, take, text_eq_iff, Bool-cases, Option-cases,
}
use knot_ops.Terminal.Console.{Console, Screen}
use knot_ops.Terminal.Task.{ids, Live, run_by_id}
use knot_ops.Terminal.Task.Inv.{IsConsistent, run_by_id-IsConsistent}
use knot_ops.Terminal.Task.Restart.{IsRestarted, run_by_id-IsRestarted}
use knot_ops.Terminal.Sequence.Order.{Distinct, contains-get_elem?, get_elem?-lt, take_lacks}
use knot_ops.Terminal.Sequence.{TaskSequence, around, activate_current_stage}

-- The stages are distinct and known to the task. While the task is unfinished the finished stages are
-- those before the current one, and there is a current one unless there is no stage at all; a
-- finished task leaves the position behind the last stage.
pub record IsSequence (s : TaskSequence) : Type 0 where
  pub consistent : IsConsistent s.inner
  pub distinct : Distinct s.all_ids
  pub bounded : s.current_stage ≤ length s.all_ids
  pub ended : s.inner.is_finished ≡ true → s.current_stage ≡ length s.all_ids
  pub known : s.inner.is_finished ≡ false → ids s.inner.entries ≡ s.all_ids
  pub progress :
      s.inner.is_finished ≡ false
      → (k : Text)
      → contains s.inner.finished_stages k ≡ contains (take s.current_stage s.all_ids) k
  pub going : s.inner.is_finished ≡ false → (s.current_stage < length s.all_ids) ⊎ (s.all_ids ≡ [])

-- A sequence with a current stage is unfinished.
pub live_of_lt :
    (s : TaskSequence)
    → IsSequence s
    → s.current_stage < length s.all_ids
    → s.inner.is_finished ≡ false
live_of_lt s v h = elim (Bool-cases s.inner.is_finished) [
  | inl done ↦ absurd (omega (arith, v.ended done))
  | inr live ↦ live
]

module _ (c : Console) (s : TaskSequence) (w : Screen) (v : IsSequence s) where
  activated :
      (id : Text)
      → get_elem? s.all_ids s.current_stage ≡ some id
      → (l : Live) → IsConsistent l.0
      → IsRestarted (id ∷ []) s.inner l.0
      → IsSequence (around s l).0
  unfolding contains
  activated id e l consistent h =
      let live = live_of_lt s v (get_elem?-lt s.all_ids s.current_stage e) in
      record {
        consistent = consistent;
        distinct = v.distinct;
        bounded = v.bounded;
        ended = λ done. ground (arith, h.live);
        known = λ _. h.same_ids ∙ v.known live;
        progress = λ _ k. ground (
          arith,
          h.reset k,
          v.progress live k,
          take_lacks s.all_ids s.current_stage v.distinct e,
          text_eq_iff id k,
        );
        going = λ _. v.going live;
      }

  -- Activating the current stage keeps the invariant and the position.
  pub activate-IsSequence :
      let s' = (activate_current_stage c (s, w)).0 in
      IsSequence s'
      × (s'.current_stage ≡ s.current_stage)
      × (s'.all_ids ≡ s.all_ids)
      × (s'.inner.is_finished ≡ s.inner.is_finished)
      × (s'.inner.failed_stages ≡ s.inner.failed_stages)
  unfolding activate_current_stage
  activate-IsSequence = elim (Option-cases (get_elem? s.all_ids s.current_stage)) [
    | inl e ↦ rw (e, activate_current_stage) (v, refl, refl, refl, refl)
    | inr (id, e) ↦
        let live = live_of_lt s v (get_elem?-lt s.all_ids s.current_stage e) in
        let calm = v.consistent.calm live in
        let h =
          run_by_id-IsRestarted c none id s.inner w
            (rw (v.known live) (contains-get_elem? s.all_ids s.current_stage e)) live calm in
        rw (e, activate_current_stage)
          (
            activated id e (run_by_id c id none (s.inner, w)).1
                (run_by_id-IsConsistent c id s.inner w v.consistent none) h,
            refl,
            refl,
            h.live ∙ sym live,
            h.calm ∙ sym calm,
          )
  ]
