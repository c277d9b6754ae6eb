-- ===== src/Terminal/Task/Panics.antt =====
-- When starting stages of a new task panics.
use knot_ops.Prelude.{
  Bool, true, false, ◌||◌, ◌&&◌, not, Text, Option, some, List, [], ◌∷◌, ◌≡◌, refl, sym, ap, ◌∙◌,
  inl, inr, arith, all, map, contains, is_empty, remove, text_eq, text_eq_iff, Bool-cases, if_true,
  if_false, some-eq-some,
}
use knot_ops.Terminal.Console.{Console, now}
use knot_ops.Terminal.Renderer.Panics.{RunsWith, AllRunWith}
use knot_ops.Terminal.Task.Stages.{
  Stage, TaskEntry, stage, extra, entry_renderer, find_stage, set_stage, ids,
}
use knot_ops.Terminal.Task.Stages
use knot_ops.Terminal.Task.State.{Task, Live, update_state}
use knot_ops.Terminal.Task.Ops.{mark_running, run_stage, run_by_id, run_each}
use knot_ops.Terminal.Task.Settle.{find_stage-Found, ids-set_stage}
use knot_ops.Terminal.Task.Restart.{not_all_finished, run_by_id-IsRestarted}
use knot_ops.Terminal.Task.Steady.{set_stage_renderers, update_state_calm}

module _ (c : Console) (bad : Bool) where
  -- Every renderer of the entries runs with the same outcome.
  abbrev pub EntriesRun : List TaskEntry → Type 0
  EntriesRun es = AllRunWith c bad (map entry_renderer es)

  find_stage-RunsWith :
      (id : Text) (s : Stage) (es : List TaskEntry)
      → find_stage id es ≡ some s
      → EntriesRun es
      → RunsWith c bad s.renderer
  unfolding find_stage entry_renderer
  find_stage-RunsWith id s [] e h = cc
  find_stage-RunsWith id s (extra r ∷ es) e h = find_stage-RunsWith id s es e h.1
  find_stage-RunsWith id s (stage s0 ∷ es) e h = elim (Bool-cases (text_eq s0.id id)) [
    | inl hit ↦ rw (sym (some-eq-some (sym (if_true _ _ hit) ∙ e))) h.0
    | inr miss ↦ find_stage-RunsWith id s es (sym (if_false _ _ miss) ∙ e) h.1
  ]

  -- What starting a stage does to the flag of the screen; the other entries stay.
  pub record RunPanics (n : Bool) (l l' : Live) : Type 0 where
    pub panics : l'.1.panicked ≡ (l.1.panicked || (n && bad))
    pub runs : EntriesRun l'.0.entries

  module _ (msg : Option Text) where
    pub run_by_id_panics :
        (id : Text) (l : Live)
        → contains (ids l.0.entries) id ≡ true
        → l.0.is_finished ≡ false
        → l.0.failed_stages ≡ []
        → EntriesRun l.0.entries
        → RunPanics true l (run_by_id c id msg l).1
    unfolding run_by_id run_stage mark_running remove Stages.run now
    run_by_id_panics id (t, w) known live calm h = elim (find_stage-Found id t.entries) [
      | inl (absent, e) ↦ cc
      | inr (s, present, e, same) ↦
          let (start, w1) = now c w in
          let s' : Stage = record s { start_time = some start } in
          let t' : Task = mark_running id (record t { entries = set_stage id s' t.entries }) in
          let quiet : update_state c (t', Stages.run c s' msg w1)
              ≡ (true, (t', Stages.run c s' msg w1)) =
            update_state_calm c t' (Stages.run c s' msg w1) live (rw calm refl) (
              ap (all (contains (remove id t.finished_stages))) (ids-set_stage id s' t.entries same)
              ∙ not_all_finished id t.finished_stages (ids t.entries) present) in
          rw (e, run_by_id)
            (rw quiet (record {
              panics = find_stage-RunsWith id s t.entries e h msg w1;
              runs = rw (set_stage_renderers id s s' t.entries e refl) h;
            }))
    ]

    pub run_each_panics :
        (todo : List Text) (l : Live)
        → ((k : Text) → contains todo k ≡ true → contains (ids l.0.entries) k ≡ true)
        → l.0.is_finished ≡ false
        → l.0.failed_stages ≡ []
        → EntriesRun l.0.entries
        → RunPanics (not (is_empty todo)) l (run_each c todo msg l)
    unfolding run_each contains
    run_each_panics [] l within live calm h = record { panics = ground arith; runs = h }
    run_each_panics (id ∷ rest) l within live calm h =
        let l1 = (run_by_id c id msg l).1 in
        let known = within id (ground (arith, text_eq_iff id id)) in
        let v = run_by_id-IsRestarted c msg id l.0 l.1 known live calm in
        let a = run_by_id_panics id l known live calm h in
        let b =
          run_each_panics rest l1 (λ k m. rw (v.same_ids) (within k (ground arith))) v.live v.calm
            a.runs in
        record { panics = ground (arith, a.panics, b.panics); runs = b.runs }
