-- ===== src/Terminal/Task/Steady.antt =====
-- Starting stages of a new task leaves every bar in its place.
use knot_ops.Prelude.{
  ℕ, true, false, Text, Option, some, List, [], ◌∷◌, ◌≡◌, refl, sym, ap, ◌∙◌, inl, inr, arith, all,
  map, contains, remove, text_eq, text_eq_iff, Bool-cases, if_true, if_false, some-eq-some,
}
use knot_ops.Terminal.Console.{Console, Call, Screen, now}
use knot_ops.Terminal.Layout.Rows.{IsMultiProgress, IsSteady, IsSteady-still, IsSteady-then}
use knot_ops.Terminal.Renderer.Steady.{now-IsSteady, run-IsSteady}
use knot_ops.Terminal.Task.Stages.{
  Stage, TaskEntry, stage, extra, entry_renderer, find_stage, set_stage, ids,
}
use knot_ops.Terminal.Task.Stages
use knot_ops.Terminal.Task.State.{Task, Live, all_finished, update_state}
use knot_ops.Terminal.Task.Ops.{mark_running, run_stage, run_by_id, run_each}
use knot_ops.Terminal.Task.Settle.{all-ids, find_stage-Found, ids-set_stage}
use knot_ops.Terminal.Task.Restart.{not_all_finished, run_by_id-IsRestarted}

-- A stage written back with its renderer keeps the renderers of the entries.
pub set_stage_renderers :
    (id : Text) (s s' : Stage) (es : List TaskEntry)
    → find_stage id es ≡ some s
    → s'.renderer ≡ s.renderer
    → map entry_renderer (set_stage id s' es) ≡ map entry_renderer es
unfolding find_stage set_stage entry_renderer
set_stage_renderers id s s' [] h same = refl
set_stage_renderers id s s' (extra r ∷ es) h same =
    ap (λ l. r ∷ l) (set_stage_renderers id s s' es h same)
set_stage_renderers id s s' (stage s0 ∷ es) h same = elim (Bool-cases (text_eq s0.id id)) [
  | inl hit ↦
      ap (map entry_renderer) (if_true _ _ hit)
      ∙ ap (λ r. r ∷ map entry_renderer es)
          (same ∙ ap (λ x. x.renderer) (some-eq-some (sym h ∙ if_true _ _ hit)))
  | inr miss ↦
      ap (map entry_renderer) (if_false _ _ miss)
      ∙ ap (λ l. s0.renderer ∷ l)
          (set_stage_renderers id s s' es (sym (if_false _ _ miss) ∙ h) same)
]

-- From a task to one with the same renderers, with every bar in its place.
pub record StaysPut (rows : List Call → List ℕ) (l l' : Live) : Type 0 where
  pub steady : IsSteady rows l.1 l'.1
  pub same_renderer : l'.0.renderer ≡ l.0.renderer
  pub same_entries : map entry_renderer l'.0.entries ≡ map entry_renderer l.0.entries

module _ (c : Console) where
  -- Nothing ends an unfinished task with a stage that is not finished and none that failed.
  pub update_state_calm :
      (t : Task) (w : Screen)
      → t.is_finished ≡ false
      → t.failed_stages ≡ []
      → all (contains t.finished_stages) (ids t.entries) ≡ false
      → update_state c (t, w) ≡ (true, (t, w))
  unfolding update_state all_finished
  update_state_calm t w live calm open_ = ground (arith, all-ids t.finished_stages t.entries)

module _ (rows : List Call → List ℕ) (laws : IsMultiProgress rows) (c : Console)
    (msg : Option Text) where
  run_by_id-StaysPut :
      (id : Text) (l : Live)
      → l.0.is_finished ≡ false
      → l.0.failed_stages ≡ []
      → StaysPut rows l (run_by_id c id msg l).1
  unfolding run_by_id run_stage mark_running remove Stages.run
  run_by_id-StaysPut id (t, w) live calm = elim (find_stage-Found id t.entries) [
    | inl (absent, e) ↦
        rw (e, run_by_id)
          (record { steady = IsSteady-still rows w; same_renderer = refl; same_entries = refl })
    | inr (s, present, e, same) ↦
        let (start, w1) = now c w in
        let s' : Stage = record s { start_time = some start } in
        let t' : Task = mark_running id (record t { entries = set_stage id s' t.entries }) in
        let quiet : update_state c (t', Stages.run c s' msg w1)
            ≡ (true, (t', Stages.run c s' msg w1)) =
          update_state_calm c t' (Stages.run c s' msg w1) live (rw calm refl) (
            ap (all (contains (remove id t.finished_stages))) (ids-set_stage id s' t.entries same)
            ∙ not_all_finished id t.finished_stages (ids t.entries) present) in
        rw (e, run_by_id)
          (rw quiet (record {
            steady =
                IsSteady-then rows (now-IsSteady rows c w)
                  (run-IsSteady rows laws c s.renderer msg w1);
            same_renderer = refl;
            same_entries = set_stage_renderers id s s' t.entries e refl;
          }))
  ]

  pub run_each-StaysPut :
      (todo : List Text) (l : Live)
      → ((k : Text) → contains todo k ≡ true → contains (ids l.0.entries) k ≡ true)
      → l.0.is_finished ≡ false
      → l.0.failed_stages ≡ []
      → StaysPut rows l (run_each c todo msg l)
  unfolding run_each contains
  run_each-StaysPut [] l within live calm = record {
    steady = IsSteady-still rows l.1;
    same_renderer = refl;
    same_entries = refl;
  }
  run_each-StaysPut (id ∷ rest) l within live calm =
      let l1 = (run_by_id c id msg l).1 in
      let h =
        run_by_id-IsRestarted c msg id l.0 l.1 (within id (ground (arith, text_eq_iff id id))) live
          calm in
      let a = run_by_id-StaysPut id l live calm in
      let b =
        run_each-StaysPut rest l1 (λ k m. rw (h.same_ids) (within k (ground arith))) h.live
          h.calm in
      record {
        steady = IsSteady-then rows a.steady b.steady;
        same_renderer = b.same_renderer ∙ a.same_renderer;
        same_entries = b.same_entries ∙ a.same_entries;
      }
