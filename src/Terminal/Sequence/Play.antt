-- ===== src/Terminal/Sequence/Play.antt =====
-- Runs of `ok` and `skip`, and all runs.
use Prim.Native.Nat.{min}
use knot_ops.Prelude.{
  ◌+◌, ◌<◌, not, Text, List, [], ◌∷◌, ◌≡◌, ◌≢◌, refl, sym, ◌∙◌, inl, inr, arith, length, ltb, leb,
  Bool-cases,
}
use knot_ops.Terminal.Console.{Console}
use knot_ops.Terminal.Sequence.Inv.{IsSequence}
use knot_ops.Terminal.Sequence.Advance.{HasAdvanced, advance_one}
use knot_ops.Terminal.Sequence.Ending.{exhausted_ignores}
use knot_ops.Terminal.Sequence.{TaskSequence, LiveSequence, ok, skip}

pub data Move : Type 0 where
  ok_move : Text → Move
  skip_move : Text → Move

module _ (c : Console) where
  unfoldable pub move : Move → LiveSequence → LiveSequence
  move (ok_move msg) l = ok c msg l
  move (skip_move msg) l = skip c msg l

  unfoldable pub play : List Move → LiveSequence → LiveSequence
  play [] l = l
  play (m ∷ ms) l = play ms (move m l)

  move-HasAdvanced :
      (m : Move) (l : LiveSequence)
      → IsSequence l.0
      → l.0.current_stage < length l.0.all_ids
      → HasAdvanced l.0 (move m l).0
  unfolding move
  move-HasAdvanced (ok_move msg) l v more = (advance_one l.0 v c msg l.1 more).0
  move-HasAdvanced (skip_move msg) l v more = (advance_one l.0 v c msg l.1 more).1

  move_at_end :
      (m : Move) (l : LiveSequence)
      → IsSequence l.0
      → l.0.current_stage ≡ length l.0.all_ids
      → move m l ≡ l
  unfolding move
  move_at_end (ok_move msg) l v at_end = (exhausted_ignores c l.0 l.1 v at_end).0 msg
  move_at_end (skip_move msg) l v at_end = (exhausted_ignores c l.0 l.1 v at_end).1 msg

  -- After n calls of ok and skip, in any mix, a sequence that meets the invariant stands n stages
  -- further, or behind its last stage if there are not so many; it has kept its stages and the
  -- invariant.
  pub play_position :
      (ms : List Move) (l : LiveSequence)
      → IsSequence l.0
      → let s' = (play ms l).0 in
        IsSequence s'
        × (s'.current_stage ≡ min (l.0.current_stage + length ms) (length l.0.all_ids))
        × (s'.all_ids ≡ l.0.all_ids)
  unfolding play
  play_position [] l v = (v, omega (arith, v.bounded), refl)
  play_position (m ∷ ms) l v = elim (Bool-cases (ltb l.0.current_stage (length l.0.all_ids))) [
    | inl more ↦
        let h = move-HasAdvanced m l v (ground arith) in
        let (valid, at, same) = play_position ms (move m l) h.valid in
        (valid, ground (arith, at, h.moved, h.same_ids), same ∙ h.same_ids)
    | inr over ↦
        let at_end : l.0.current_stage ≡ length l.0.all_ids = ground (arith, v.bounded) in
        let (valid, at, same) = play_position ms l v in
        rw (play, move_at_end m l v at_end) (valid, omega (arith, at), same)
  ]

-- The task of a sequence that has a stage is finished exactly if the position is behind the last.
pub finished_at_end :
    (s : TaskSequence)
    → IsSequence s
    → s.all_ids ≢ []
    → s.inner.is_finished ≡ not (ltb s.current_stage (length s.all_ids))
finished_at_end s v some_stage = elim (Bool-cases s.inner.is_finished) [
  | inl done ↦ ground (arith, v.ended done)
  | inr live ↦ elim (v.going live) [
    | inl more ↦ ground arith
    | inr none_there ↦ absurd (some_stage none_there)
  ]
]

-- A sequence that meets the invariant, stands at its first stage and has a stage is completed by a
-- run of calls of ok and skip, in any mix, exactly if there are at least as many calls as stages.
pub play_completes :
    (c : Console) (ms : List Move) (l : LiveSequence)
    → IsSequence l.0
    → l.0.current_stage ≡ 0
    → l.0.all_ids ≢ []
    → (play c ms l).0.inner.is_finished ≡ leb (length l.0.all_ids) (length ms)
play_completes c ms l v at_first some_stage =
    let (valid, at, same) = play_position c ms l v in
    finished_at_end (play c ms l).0 valid (λ e. some_stage (sym same ∙ e))
    ∙ ground (arith, at, same)
