-- ===== src/Terminal/Task/Settle.antt =====
-- The state of a task apart from the screen.
use knot_ops.Prelude.{
  true, false, not, Text, none, some, List, [], ◌∷◌, ◌≡◌, refl, arith, if◌then◌else◌, all, is_empty,
  contains, text_eq, text_eq_iff, ◌⊎◌, inl, inr, Bool-cases,
}
use knot_ops.Terminal.Console.{Console, Screen}
use knot_ops.Terminal.Task.Stages.{
  Stage, TaskEntry, stage, extra, stages, ids, find_stage, set_stage,
}
use knot_ops.Terminal.Task.State.{
  Task, clear_children, set_completed, set_failed_and_freeze, update_state,
}

-- `update_state` on the state alone, over the identifiers of the stages.
unfoldable pub settle : Task → Task
settle t =
    if t.is_finished
    then t
    else if not (is_empty t.failed_stages)
    then record t { is_finished = true }
    else if all (contains t.finished_stages) (ids t.entries)
    then record t { is_finished = true; entries = [] }
    else t

pub all-ids :
    (f : List Text) (es : List TaskEntry)
    → all (λ s. contains f s.id) (stages es) ≡ all (contains f) (ids es)
unfolding stages ids
all-ids f [] = refl
all-ids f (stage s ∷ es) = ground (arith, all-ids f es)
all-ids f (extra r ∷ es) = all-ids f es

module _ (c : Console) where
  -- The task after `update_state` is `settle` of the task before.
  pub update_state-settle : (t : Task) (w : Screen) → (update_state c (t, w)).1.0 ≡ settle t
  unfolding update_state settle set_completed clear_children set_failed_and_freeze
  update_state-settle t w = ground (arith, all-ids t.finished_stages t.entries)

  pub update_state_result : (t : Task) (w : Screen) → (update_state c (t, w)).0 ≡ not t.is_finished
  unfolding update_state
  update_state_result t w = ground arith

-- What a search for an id finds.
abbrev pub Found : Text → List TaskEntry → Type 0
Found id es =
    ((contains (ids es) id ≡ false) × (find_stage id es ≡ none))
    ⊎ ((s : Stage) × (contains (ids es) id ≡ true) × (find_stage id es ≡ some s) × (s.id ≡ id))

-- A stage is found exactly if its id is among the ids.
pub find_stage-Found : (id : Text) (es : List TaskEntry) → Found id es
unfolding find_stage ids stages contains
find_stage-Found id [] = inl (refl, refl)
find_stage-Found id (stage s ∷ es) = elim (Bool-cases (text_eq s.id id)) [
  | inl hit ↦ inr (s, rw hit refl, rw hit refl, (text_eq_iff s.id id).0 hit)
  | inr miss ↦ rw miss (find_stage-Found id es)
]
find_stage-Found id (extra r ∷ es) = find_stage-Found id es

-- Writing a stage back keeps the ids.
pub ids-set_stage :
    (id : Text) (s : Stage) (es : List TaskEntry) → s.id ≡ id → ids (set_stage id s es) ≡ ids es
unfolding set_stage ids stages
ids-set_stage id s [] h = refl
ids-set_stage id s (stage x ∷ es) h = ground (arith, text_eq_iff x.id id, ids-set_stage id s es)
ids-set_stage id s (extra r ∷ es) h = ids-set_stage id s es h
