-- ===== src/Terminal/Sequence/Quiet.antt =====
-- A sequence in plain mode: its operations only write lines.
use knot_ops.Prelude.{
  Bool, true, false, Text, codes, Option, none, some, List, [], ◌∷◌, ◌≡◌, refl, ap, ◌∙◌, length,
  get_elem?, drop, ltb, if◌then◌else◌,
}
use knot_ops.Terminal.Console.{Console, Screen}
use knot_ops.Terminal.Report.{ErrorReport}
use knot_ops.Terminal.Renderer.Quiet.{IsQuiet, IsQuiet-still, IsQuiet-then}
use knot_ops.Terminal.Task.{ids, Live, ok_by_id, skip_by_id, fail_by_id, set_completed}
use knot_ops.Terminal.Task.Quiet.{IsPlainTask, StaysPlain, set_completed-StaysPlain}
use knot_ops.Terminal.Task.Quiet.Ops.{
  run_by_id-StaysPlain, ok_by_id-StaysPlain, skip_by_id-StaysPlain, fail_by_id-StaysPlain,
}
use knot_ops.Terminal.Sequence.Course.{SequenceOp, ok_op, skip_op, fail_op, apply, play_all}
use knot_ops.Terminal.Builder
use knot_ops.Terminal.Builder.Quiet.{in_plain_mode, start-IsPlainTask}
use knot_ops.Terminal.Renderer.{plain_mode}
use knot_ops.Terminal.Sequence.Ids.{ChainStep, staged, grouped, chain}
use knot_ops.Terminal.Sequence.{
  TaskSequenceBuilder, new, start, sequenced, with_stage, with_group, LiveSequence, around, advance,
  activate_current_stage, go_on, ok, skip, fail, skip_ids, skip_stages, skip_rest,
}

-- From a sequence whose task is in plain mode to another, with lines written.
abbrev pub StaysQuiet : LiveSequence → LiveSequence → Type 0
StaysQuiet l l' = StaysPlain (l.0.inner, l.1) (l'.0.inner, l'.1)

same-StaysQuiet : (l : LiveSequence) → IsPlainTask l.0.inner → StaysQuiet l l
same-StaysQuiet l p = (p, IsQuiet-still l.1)

then-StaysQuiet : (l l1 l2 : LiveSequence) → StaysQuiet l l1 → StaysQuiet l1 l2 → StaysQuiet l l2
then-StaysQuiet l l1 l2 (p, q) (p', q') = (p', IsQuiet-then q q')

if-StaysQuiet :
    (b : Bool) (l x y : LiveSequence)
    → StaysQuiet l x
    → StaysQuiet l y
    → StaysQuiet l (if b then x else y)
if-StaysQuiet true l x y vx vy = vx
if-StaysQuiet false l x y vx vy = vy

-- What is done at the current stage, if there is one.
at_stage-StaysQuiet :
    (o : Option Text) (l : LiveSequence) (f : Text → LiveSequence)
    → IsPlainTask l.0.inner
    → ((id : Text) → StaysQuiet l (f id))
    → StaysQuiet l (elim o as (λ _. LiveSequence) [ none ↦ l | some id ↦ f id ])
at_stage-StaysQuiet none l f p h = same-StaysQuiet l p
at_stage-StaysQuiet (some id) l f p h = h id

module _ (c : Console) where
  activate-StaysQuiet :
      (l : LiveSequence) → IsPlainTask l.0.inner → StaysQuiet l (activate_current_stage c l)
  unfolding activate_current_stage
  activate-StaysQuiet l p =
      at_stage-StaysQuiet (get_elem? l.0.all_ids l.0.current_stage) l _ p
        (λ id. run_by_id-StaysPlain c id none (l.0.inner, l.1) p)

  go_on-StaysQuiet : (l : LiveSequence) → IsPlainTask l.0.inner → StaysQuiet l (go_on c l)
  unfolding go_on
  go_on-StaysQuiet l p =
      if-StaysQuiet (ltb l.0.current_stage (length l.0.all_ids)) l (activate_current_stage c l)
        (around l.0 (set_completed c (codes "success") (l.0.inner, l.1))) (activate-StaysQuiet l p)
        (set_completed-StaysPlain c (codes "success") (l.0.inner, l.1) p)

  ok-StaysQuiet :
      (msg : Text) (l : LiveSequence) → IsPlainTask l.0.inner → StaysQuiet l (ok c msg l)
  unfolding ok
  ok-StaysQuiet msg l p = at_stage-StaysQuiet (get_elem? l.0.all_ids l.0.current_stage) l _ p (λ id.
      let l1 = advance (around l.0 (ok_by_id c id msg (l.0.inner, l.1)).1) in
      let h = ok_by_id-StaysPlain c id msg (l.0.inner, l.1) p in
      then-StaysQuiet l l1 (go_on c l1) h (go_on-StaysQuiet l1 h.0))

  skip-StaysQuiet :
      (msg : Text) (l : LiveSequence) → IsPlainTask l.0.inner → StaysQuiet l (skip c msg l)
  unfolding skip
  skip-StaysQuiet msg l p =
      at_stage-StaysQuiet (get_elem? l.0.all_ids l.0.current_stage) l _ p (λ id.
        let l1 = advance (around l.0 (skip_by_id c id msg (l.0.inner, l.1)).1) in
        let h = skip_by_id-StaysPlain c id msg (l.0.inner, l.1) p in
        then-StaysQuiet l l1 (go_on c l1) h (go_on-StaysQuiet l1 h.0))

  skip_ids-StaysPlain :
      (todo : List Text) (msg : Text) (l : Live)
      → IsPlainTask l.0
      → StaysPlain l (skip_ids c todo msg l)
  unfolding skip_ids
  skip_ids-StaysPlain [] msg l p = (p, IsQuiet-still l.1)
  skip_ids-StaysPlain (id ∷ rest) msg l p =
      let h = skip_by_id-StaysPlain c id msg l p in
      let (p', q') = skip_ids-StaysPlain rest msg (skip_by_id c id msg l).1 h.0 in
      (p', IsQuiet-then h.1 q')

  skip_rest-StaysQuiet : (l : LiveSequence) → IsPlainTask l.0.inner → StaysQuiet l (skip_rest c l)
  unfolding skip_rest skip_stages
  skip_rest-StaysQuiet l p =
      let msg = codes "skipped due to previous error" in
      if-StaysQuiet (ltb l.0.current_stage (length l.0.all_ids)) l
        (skip_stages c l.0.current_stage msg l) l
        (skip_ids-StaysPlain (drop l.0.current_stage l.0.all_ids) msg (l.0.inner, l.1) p)
        (same-StaysQuiet l p)

  fail-StaysQuiet :
      (report : ErrorReport) (l : LiveSequence)
      → IsPlainTask l.0.inner
      → StaysQuiet l (fail c report l)
  unfolding fail
  fail-StaysQuiet report l p =
      at_stage-StaysQuiet (get_elem? l.0.all_ids l.0.current_stage) l _ p (λ id.
        let l1 = advance (around l.0 (fail_by_id c id report (l.0.inner, l.1)).1) in
        let h = fail_by_id-StaysPlain c id report (l.0.inner, l.1) p in
        then-StaysQuiet l l1 (skip_rest c l1) h (skip_rest-StaysQuiet l1 h.0))

  apply-StaysQuiet :
      (op : SequenceOp) (l : LiveSequence) → IsPlainTask l.0.inner → StaysQuiet l (apply c op l)
  unfolding apply
  apply-StaysQuiet (ok_op msg) l p = ok-StaysQuiet msg l p
  apply-StaysQuiet (skip_op msg) l p = skip-StaysQuiet msg l p
  apply-StaysQuiet (fail_op report) l p = fail-StaysQuiet report l p

  pub play_all-StaysQuiet :
      (ops : List SequenceOp) (l : LiveSequence)
      → IsPlainTask l.0.inner
      → StaysQuiet l (play_all c ops l)
  unfolding play_all
  play_all-StaysQuiet [] l p = same-StaysQuiet l p
  play_all-StaysQuiet (op ∷ ops) l p =
      let h = apply-StaysQuiet op l p in
      let l1 = apply c op l in
      then-StaysQuiet l l1 (play_all c ops l1) h (play_all-StaysQuiet ops l1 h.0)

  -- A sequence around a task in plain mode.
  pub new-StaysQuiet :
      (l : Live) (autostart : Bool)
      → IsPlainTask l.0
      → StaysPlain l ((new c l autostart).0.inner, (new c l autostart).1)
  unfolding new
  new-StaysQuiet l autostart p =
      let s : LiveSequence =
        (record { inner = l.0; current_stage = 0; all_ids = ids l.0.entries }, l.1) in
      if-StaysQuiet autostart s (activate_current_stage c s) s (activate-StaysQuiet s p)
        (same-StaysQuiet s p)

  -- A sequence that was started from a builder in plain mode, and played.
  pub start-play_all-IsQuiet :
      (auto_indent : Bool) (b : TaskSequenceBuilder) (ops : List SequenceOp) (w : Screen)
      → b.inner.mode ≡ plain_mode
      → (l : LiveSequence) × (start c auto_indent b w ≡ some l) × IsQuiet w (play_all c ops l).1
  unfolding start sequenced
  start-play_all-IsQuiet auto_indent b ops w mode =
      let (t, e, p, q) = start-IsPlainTask c b.inner auto_indent w in
      let plain_inner : b.inner ≡ in_plain_mode b.inner =
        ap (λ m. record b.inner { mode = m }) mode in
      let l = new c t true in
      let begun = new-StaysQuiet t true p in
      (
        l,
        ap (λ i. sequenced c (Builder.start c auto_indent i w) true) plain_inner
            ∙ ap (λ o. sequenced c o true) e,
        IsQuiet-then q (IsQuiet-then begun.1 (play_all-StaysQuiet ops l begun.0).1),
      )

-- A chain of calls keeps the mode.
pub chain_mode :
    (cs : List ChainStep) (b : TaskSequenceBuilder) → (chain cs b).inner.mode ≡ b.inner.mode
unfolding chain with_stage with_group Builder.with_stage Builder.with_group
chain_mode [] b = refl
chain_mode (staged name ∷ cs) b = chain_mode cs (with_stage name b)
chain_mode (grouped header ∷ cs) b = chain_mode cs (with_group header b)
