-- ===== src/Terminal/Task/Standing.antt =====
-- The operations that fail no stage, and what they do to the anchor.
use knot_ops.Prelude.{
  ℕ, Bool, true, false, not, Text, codes, Option, none, some, List, [], ◌∷◌, ◌≡◌, refl, sym, ap,
  ◌∙◌, inl, inr, arith, map, any, remove, subst, Bool-cases, if_true, if_false, if◌then◌else◌,
  is_empty,
}
use knot_ops.Terminal.Console.{Console, Call, Screen, now}
use knot_ops.Terminal.Layout.{update_anchor_if_in}
use knot_ops.Terminal.Layout.Rows.{IsMultiProgress, IsSteady, IsSteady-still, IsSteady-then}
use knot_ops.Terminal.Renderer.{TaskRenderer, TaskRenderingStrategy, interactive}
use knot_ops.Terminal.Renderer
use knot_ops.Terminal.Renderer.Steady.{now-IsSteady, run-IsSteady, skip-IsSteady, success-IsSteady}
use knot_ops.Terminal.Task.Stages.{
  Stage, TaskEntry, entry_renderer, find_stage, set_stage, ids, started_or_now,
}
use knot_ops.Terminal.Task.Stages
use knot_ops.Terminal.Task.State.{
  Task, Live, clear_entries, fall_back, clear_children, set_completed, all_finished, update_state,
}
use knot_ops.Terminal.Task.Ops.{
  mark_running, mark_finished, run_stage, run_by_id, ok_by_id, skip_by_id, ok_each, run_each,
  skip_each, perform_ok, perform_run, perform_skip,
}
use knot_ops.Terminal.Task.Nodes.{all_nodes}
use knot_ops.Terminal.Task.Settle.{find_stage-Found}
use knot_ops.Terminal.Task.Steady.{set_stage_renderers}
use knot_ops.Terminal.Task.Trace.{
  TaskOp, run_one, ok_one, fail_one, skip_one, run_all, ok_all, fail_all, skip_all, apply, play,
}
use knot_ops.Terminal.Task.Anchor.{
  is_failure, Layout, Goes, IsOver, Stands, clear_entries-IsSteady, fallen,
}

module _ (rows : List Call → List ℕ) (laws : IsMultiProgress rows) (c : Console)
    (p : Layout rows) where
  set_completed-IsOver :
      (msg : Text) (l : Live) → Goes rows p l → IsOver rows p (set_completed c msg l)
  unfolding set_completed clear_children fall_back
  set_completed-IsOver msg l g =
      let k = g.keeps in
      let w1 = Renderer.success c l.0.renderer msg l.0.start_time l.1 in
      let (nodes, w2) = clear_entries c l.0.entries w1 in
      let (cleared, s) = clear_entries-IsSteady rows laws c l.0.entries w1 in
      let steady =
        IsSteady-then rows (success-IsSteady rows laws c l.0.renderer msg l.0.start_time l.1) s in
      let w3 = fall_back c l.0.renderer.strategy nodes w2 in
      let fell : w3 ≡ update_anchor_if_in (all_nodes p.renderers) p.node w2 =
        ap (λ st. fall_back c st nodes w2) (ap (λ r. r.strategy) k.same_renderer ∙ p.at_node)
        ∙ ap (λ ns. update_anchor_if_in ns p.node w2) (cleared ∙ ap all_nodes g.same_entries) in
      let (anchored, same_log, same_bars) =
        fallen rows laws c (all_nodes p.renderers) p.node p.last w2
          (steady.same_anchor ∙ g.anchored) p.own in
      subst (IsOver rows p) (sym (if_false _ _ g.live)) (record {
        keeps = record {
          same_renderer = k.same_renderer;
          calm = k.calm;
          same_rows = ap (λ w. rows w.log) fell ∙ ap rows same_log ∙ steady.same_rows ∙ k.same_rows;
          same_bars = ap (λ w. w.bars) fell ∙ same_bars ∙ steady.same_bars ∙ k.same_bars;
        };
        ended = refl;
        cleared = refl;
        anchored = ap (λ w. w.anchor) fell ∙ anchored;
      })

  update_state_going :
      (l : Live)
      → Goes rows p l
      → update_state c l
        ≡ (if all_finished c l.0 then (true, set_completed c (codes "success") l) else (true, l))
  unfolding update_state
  update_state_going l g =
      if_false _ _ g.live ∙ if_false _ _ (ap (λ f. not (is_empty f)) g.keeps.calm)

  update_state-Stands : (l : Live) → Goes rows p l → Stands rows p (update_state c l).1
  update_state-Stands l g =
      subst {A = Bool × Live} (λ x. Stands rows p x.1) (sym (update_state_going l g))
        (elim (Bool-cases (all_finished c l.0)) [
          | inl done ↦
              subst {A = Bool × Live} (λ x. Stands rows p x.1) (sym (if_true _ _ done))
                (inr (set_completed-IsOver (codes "success") l g))
          | inr open_ ↦
              subst {A = Bool × Live} (λ x. Stands rows p x.1) (sym (if_false _ _ open_)) (inl g)
        ])

  started-IsSteady : (o : Option ℕ) (w : Screen) → IsSteady rows w (started_or_now c o w).1
  unfolding started_or_now
  started-IsSteady (some start) w = IsSteady-still rows w
  started-IsSteady none w = now-IsSteady rows c w

  -- A stage of a task that goes is marked, with calls that leave the bars in place.
  marked-Stands :
      (l : Live) (t : Task) (w : Screen)
      → Goes rows p l
      → IsSteady rows l.1 w
      → t.renderer ≡ l.0.renderer
      → t.failed_stages ≡ []
      → t.is_finished ≡ false
      → map entry_renderer t.entries ≡ map entry_renderer l.0.entries
      → Stands rows p (update_state c (t, w)).1
  marked-Stands l t w g s same_renderer calm live same_entries =
      update_state-Stands (t, w)
        (record {
          keeps = record {
            same_renderer = same_renderer ∙ g.keeps.same_renderer;
            calm = calm;
            same_rows = s.same_rows ∙ g.keeps.same_rows;
            same_bars = s.same_bars ∙ g.keeps.same_bars;
          };
          live = live;
          same_entries = same_entries ∙ g.same_entries;
          anchored = s.same_anchor ∙ g.anchored;
        })

  -- A finished task has no stage to find.
  gone : (id : Text) (es : List TaskEntry) → es ≡ [] → find_stage id es ≡ none
  unfolding find_stage
  gone id es h = ap (find_stage id) h

  run_by_id-Stands :
      (id : Text) (msg : Option Text) (l : Live)
      → Stands rows p l
      → Stands rows p (run_by_id c id msg l).1
  unfolding run_by_id run_stage mark_running remove Stages.run
  run_by_id-Stands id msg l (inr o) = rw (gone id l.0.entries o.cleared, run_by_id) (inr o)
  run_by_id-Stands id msg l (inl g) = elim (find_stage-Found id l.0.entries) [
    | inl (absent, e) ↦ rw (e, run_by_id) (inl g)
    | inr (s, present, e, same) ↦
        rw (e, run_by_id)
          (let (start, w1) = now c l.1 in
            let s' : Stage = record s { start_time = some start } in
            marked-Stands l _ (Renderer.run c s.renderer msg w1) g
              (IsSteady-then rows (now-IsSteady rows c l.1)
                (run-IsSteady rows laws c s.renderer msg w1))
              refl (ap (remove id) g.keeps.calm) g.live
              (set_stage_renderers id s s' l.0.entries e refl))
  ]

  ok_by_id-Stands :
      (id msg : Text) (l : Live) → Stands rows p l → Stands rows p (ok_by_id c id msg l).1
  unfolding ok_by_id mark_finished remove Stages.success
  ok_by_id-Stands id msg l (inr o) = rw (gone id l.0.entries o.cleared, ok_by_id) (inr o)
  ok_by_id-Stands id msg l (inl g) = elim (find_stage-Found id l.0.entries) [
    | inl (absent, e) ↦ rw (e, ok_by_id) (inl g)
    | inr (s, present, e, same) ↦
        rw (e, ok_by_id)
          (let (start, w1) = started_or_now c s.start_time l.1 in
            marked-Stands l _ (Renderer.success c s.renderer msg start w1) g
              (IsSteady-then rows (started-IsSteady s.start_time l.1)
                (success-IsSteady rows laws c s.renderer msg start w1))
              refl (ap (remove id) g.keeps.calm) g.live refl)
  ]

  skip_by_id-Stands :
      (id msg : Text) (l : Live) → Stands rows p l → Stands rows p (skip_by_id c id msg l).1
  unfolding skip_by_id mark_finished remove Stages.skip
  skip_by_id-Stands id msg l (inr o) = rw (gone id l.0.entries o.cleared, skip_by_id) (inr o)
  skip_by_id-Stands id msg l (inl g) = elim (find_stage-Found id l.0.entries) [
    | inl (absent, e) ↦ rw (e, skip_by_id) (inl g)
    | inr (s, present, e, same) ↦
        rw (e, skip_by_id)
          (marked-Stands l _ (Renderer.skip c s.renderer msg l.1) g
            (skip-IsSteady rows laws c s.renderer msg l.1) refl (ap (remove id) g.keeps.calm) g.live
            refl)
  ]

  run_each-Stands :
      (todo : List Text) (msg : Option Text) (l : Live)
      → Stands rows p l
      → Stands rows p (run_each c todo msg l)
  unfolding run_each
  run_each-Stands [] msg l h = h
  run_each-Stands (id ∷ rest) msg l h =
      run_each-Stands rest msg (run_by_id c id msg l).1 (run_by_id-Stands id msg l h)

  ok_each-Stands :
      (todo : List Text) (msg : Text) (l : Live)
      → Stands rows p l
      → Stands rows p (ok_each c todo msg l)
  unfolding ok_each
  ok_each-Stands [] msg l h = h
  ok_each-Stands (id ∷ rest) msg l h =
      ok_each-Stands rest msg (ok_by_id c id msg l).1 (ok_by_id-Stands id msg l h)

  skip_each-Stands :
      (todo : List Text) (msg : Text) (l : Live)
      → Stands rows p l
      → Stands rows p (skip_each c todo msg l)
  unfolding skip_each
  skip_each-Stands [] msg l h = h
  skip_each-Stands (id ∷ rest) msg l h =
      skip_each-Stands rest msg (skip_by_id c id msg l).1 (skip_by_id-Stands id msg l h)

  if_Stands :
      (b : Bool) (x y : Live)
      → Stands rows p x
      → Stands rows p y
      → Stands rows p (if b then x else y)
  if_Stands true x y hx hy = hx
  if_Stands false x y hx hy = hy

  completed-Stands :
      (msg : Text) (l : Live) → Stands rows p l → Stands rows p (set_completed c msg l)
  unfolding set_completed
  completed-Stands msg l (inl g) = inr (set_completed-IsOver msg l g)
  completed-Stands msg l (inr o) = subst (Stands rows p) (sym (if_true _ _ o.ended)) (inr o)

  apply-Stands :
      (op : TaskOp) (l : Live)
      → is_failure op ≡ false
      → Stands rows p l
      → Stands rows p (apply c op l)
  unfolding apply perform_run perform_ok perform_skip
  apply-Stands (run_one id msg) l calm h = run_by_id-Stands id msg l h
  apply-Stands (ok_one id msg) l calm h = ok_by_id-Stands id msg l h
  apply-Stands (fail_one id report) l calm h = cc
  apply-Stands (skip_one id msg) l calm h = skip_by_id-Stands id msg l h
  apply-Stands (run_all msg) l calm h =
      if_Stands l.0.is_finished l (run_each c (ids l.0.entries) msg l) h
        (run_each-Stands (ids l.0.entries) msg l h)
  apply-Stands (ok_all msg) l calm h =
      let full = set_completed c msg l in
      let each = ok_each c (ids l.0.entries) msg l in
      if_Stands l.0.is_finished l (if is_empty (ids l.0.entries) then full else each) h (
        if_Stands (is_empty (ids l.0.entries)) full each (completed-Stands msg l h)
          (ok_each-Stands (ids l.0.entries) msg l h))
  apply-Stands (fail_all report) l calm h = cc
  apply-Stands (skip_all msg) l calm h =
      if_Stands l.0.is_finished l (skip_each c (ids l.0.entries) msg l) h
        (skip_each-Stands (ids l.0.entries) msg l h)

  -- Operations that fail no stage take a task that stands to one that stands.
  pub play-Stands :
      (ops : List TaskOp) (l : Live)
      → any is_failure ops ≡ false
      → Stands rows p l
      → Stands rows p (play c ops l)
  unfolding play
  play-Stands [] l calm h = h
  play-Stands (op ∷ ops) l calm h =
      play-Stands ops (apply c op l) (ground (arith, calm))
        (apply-Stands op l (ground (arith, calm)) h)
