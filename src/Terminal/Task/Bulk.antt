-- ===== src/Terminal/Task/Bulk.antt =====
-- The operations that finish all stages of a task: `ok` and `skip`.
use knot_ops.Prelude.{
  Bool, true, false, ◌||◌, Text, List, [], ◌∷◌, ◌≡◌, ◌≢◌, refl, sym, ap, ◌∙◌, ◌⊎◌, inl, inr, arith,
  all, contains, insert, remove, contains-insert, text_eq_iff, all-contains,
}
use knot_ops.Terminal.Console.{Console, Screen}
use knot_ops.Terminal.Task.Stages.{TaskEntry, ids}
use knot_ops.Terminal.Task.State.{Task, Live, set_completed}
use knot_ops.Terminal.Task.Ops.{
  mark_finished, ok_by_id, skip_by_id, ok_each, skip_each, perform_ok, perform_skip,
}
use knot_ops.Terminal.Task.Settle.{settle}
use knot_ops.Terminal.Task.Outcome.{Outcome, ok_by_id-Outcome, skip_by_id-Outcome}
use knot_ops.Terminal.Task.Inv.{IsConsistent, Outcome-IsConsistent, mark_finished-Disjoint}

-- A task that has come to its successful end.
pub record IsCompleted (t : Task) : Type 0 where
  pub ended : t.is_finished ≡ true
  pub cleared : t.entries ≡ []
  pub faultless : t.failed_stages ≡ []

finish_cases :
    (id : Text) (t t1 : Task) (es : List TaskEntry)
    → t.is_finished ≡ false
    → t.failed_stages ≡ []
    → t1 ≡ settle (record (mark_finished id t) { entries = es })
    → IsCompleted t1
      ⊎ ((t1.is_finished ≡ false)
          × (t1.entries ≡ es)
          × (t1.finished_stages ≡ insert id t.finished_stages))
unfolding settle mark_finished remove
finish_cases id t t1 es live calm e = ground arith

-- A loop over identifiers.
unfoldable pub each : (Text → Live → Bool × Live) → List Text → Live → Live
each f [] l = l
each f (id ∷ rest) l = each f rest (f id l).1

-- Every stage is finished or still to come in the loop.
abbrev pub Covers : List Text → Task → Type 0
Covers todo t =
    (k : Text)
    → contains (ids t.entries) k ≡ true
    → (contains t.finished_stages k || contains todo k) ≡ true

abbrev pub Within : List Text → Task → Type 0
Within todo t = (k : Text) → contains todo k ≡ true → contains (ids t.entries) k ≡ true

or_true : (b : Bool) → (b || true) ≡ true
or_true b = ground arith

nil_or_not : (l : List Text) → (l ≡ []) ⊎ (l ≢ [])
nil_or_not [] = inl refl
nil_or_not (x ∷ l) = inr (λ e. cc)

no_stage : (id : Text) (es : List TaskEntry) → es ≡ [] → contains (ids es) id ≡ true → ⊥
unfolding ids contains
no_stage id es e present = ground arith

all_pending :
    (t : Task)
    → ids t.entries ≢ []
    → (ids t.entries ≡ []) ⊎ (all (contains t.finished_stages) (ids t.entries) ≡ false)
    → all (contains t.finished_stages) (ids t.entries) ≡ true
    → IsCompleted t
all_pending t some_stage (inl e) h = absurd (some_stage e)
all_pending t some_stage (inr e) h = cc

drop_nil : (b : Bool) (k : Text) → (b || contains [] k) ≡ true → b ≡ true
unfolding contains
drop_nil b k h = ground arith

missing :
    (id : Text) (rest known : List Text)
    → contains known id ≡ false
    → (contains (id ∷ rest) id ≡ true → contains known id ≡ true)
    → ⊥
unfolding contains
missing id rest known absent h = ground (arith, text_eq_iff id id)

covers_rest :
    (id k : Text) (rest done : List Text)
    → (contains done k || contains (id ∷ rest) k) ≡ true
    → (contains (insert id done) k || contains rest k) ≡ true
unfolding contains
covers_rest id k rest done h = ground (arith, contains-insert id k done)

member_rest :
    (id k : Text) (rest : List Text) → contains rest k ≡ true → contains (id ∷ rest) k ≡ true
unfolding contains
member_rest id k rest m = ground arith

module _ (f : Text → Live → Bool × Live)
    (outcome : (id : Text) (l : Live) → Outcome (mark_finished id) id l (f id l)) where
  each_cleared : (todo : List Text) (l : Live) → l.0.entries ≡ [] → each f todo l ≡ l
  unfolding each
  each_cleared [] l e = refl
  each_cleared (id ∷ rest) l e = elim (outcome id l) [
    | inl (_, same) ↦ rw same (each_cleared rest l e)
    | inr (es, present, _, _, _) ↦ absurd (no_stage id l.0.entries e present)
  ]

  pub each_completes :
      (todo : List Text) (l : Live)
      → IsConsistent l.0
      → l.0.is_finished ≡ false
      → ids l.0.entries ≢ []
      → Covers todo l.0
      → Within todo l.0
      → IsCompleted (each f todo l).0
  unfolding each
  each_completes [] l v live some_stage covers within =
      all_pending l.0 some_stage (v.pending live) (
        all-contains l.0.finished_stages (ids l.0.entries)
          (λ k m. drop_nil (contains l.0.finished_stages k) k (covers k m)))
  each_completes (id ∷ rest) l v live some_stage covers within = elim (outcome id l) [
    | inl (absent, _) ↦ absurd (missing id rest (ids l.0.entries) absent (within id))
    | inr (es, present, same, result, settled) ↦
        elim (finish_cases id l.0 (f id l).1.0 es live (v.calm live) settled) [
          | inl done ↦ rw (each_cleared rest (f id l).1 done.cleared) done
          | inr (live', es', fin') ↦
              let same' : ids (f id l).1.0.entries ≡ ids l.0.entries = ap ids es' ∙ same in
              each_completes rest (f id l).1
                (Outcome-IsConsistent (mark_finished id) id l (f id l)
                  (mark_finished-Disjoint id l.0 v.disjoint)
                  (inr (es, present, same, result, settled)) v)
                live' (λ e. some_stage (sym same' ∙ e))
                (λ k m.
                  rw fin' (covers_rest id k rest l.0.finished_stages (covers k (rw (← same') m))))
                (λ k m. rw same' (within k (member_rest id k rest m)))
        ]
  ]

module _ (c : Console) where
  pub ok_each-each :
      (msg : Text) (todo : List Text) (l : Live)
      → ok_each c todo msg l ≡ each (λ id l'. ok_by_id c id msg l') todo l
  unfolding ok_each each
  ok_each-each msg [] l = refl
  ok_each-each msg (id ∷ rest) l = ok_each-each msg rest (ok_by_id c id msg l).1

  pub skip_each-each :
      (msg : Text) (todo : List Text) (l : Live)
      → skip_each c todo msg l ≡ each (λ id l'. skip_by_id c id msg l') todo l
  unfolding skip_each each
  skip_each-each msg [] l = refl
  skip_each-each msg (id ∷ rest) l = skip_each-each msg rest (skip_by_id c id msg l).1

  Covers-all : (t : Task) → Covers (ids t.entries) t
  Covers-all t k m = rw m (or_true (contains t.finished_stages k))

  perform_ok-each :
      (msg : Text) (t : Task) (w : Screen)
      → t.is_finished ≡ false
      → ids t.entries ≢ []
      → perform_ok c msg (t, w) ≡ each (λ id l. ok_by_id c id msg l) (ids t.entries) (t, w)
  unfolding perform_ok
  perform_ok-each msg t w live some_stage = ground (arith, ok_each-each msg (ids t.entries) (t, w))

  perform_skip-each :
      (msg : Text) (t : Task) (w : Screen)
      → t.is_finished ≡ false
      → perform_skip c msg (t, w) ≡ each (λ id l. skip_by_id c id msg l) (ids t.entries) (t, w)
  unfolding perform_skip
  perform_skip-each msg t w live = ground (arith, skip_each-each msg (ids t.entries) (t, w))

  -- The bulk ok ends every unfinished, consistent task, with stages or without: it is finished,
  -- cleared of its stages, and has no failed stage.
  pub perform_ok-IsCompleted :
      (msg : Text) (t : Task) (w : Screen)
      → IsConsistent t
      → t.is_finished ≡ false
      → IsCompleted (perform_ok c msg (t, w)).0
  unfolding perform_ok set_completed
  perform_ok-IsCompleted msg t w v live = elim (nil_or_not (ids t.entries)) [
    | inl none_left ↦
        rw (live, none_left, perform_ok)
          (record { ended = refl; cleared = refl; faultless = v.calm live })
    | inr some_stage ↦ rw (perform_ok-each msg t w live some_stage) (
        each_completes (λ id l. ok_by_id c id msg l) (λ id l. ok_by_id-Outcome c id l.0 l.1 msg)
          (ids t.entries) (t, w) v live some_stage (Covers-all t) (λ k m. m))
  ]

  -- The bulk skip ends every unfinished, consistent task that has a stage: it is finished,
  -- cleared of its stages, and has no failed stage.
  pub perform_skip-IsCompleted :
      (msg : Text) (t : Task) (w : Screen)
      → IsConsistent t
      → t.is_finished ≡ false
      → ids t.entries ≢ []
      → IsCompleted (perform_skip c msg (t, w)).0
  perform_skip-IsCompleted msg t w v live some_stage = rw (perform_skip-each msg t w live) (
      each_completes (λ id l. skip_by_id c id msg l) (λ id l. skip_by_id-Outcome c id l.0 l.1 msg)
        (ids t.entries) (t, w) v live some_stage (Covers-all t) (λ k m. m))

  -- On an unfinished task without stages the bulk skip changes neither the task nor the screen,
  -- where the bulk ok finishes it.
  pub perform_skip_stageless :
      (msg : Text) (t : Task) (w : Screen)
      → t.is_finished ≡ false
      → ids t.entries ≡ []
      → (perform_skip c msg (t, w) ≡ (t, w)) × ((perform_ok c msg (t, w)).0.is_finished ≡ true)
  unfolding each perform_ok set_completed
  perform_skip_stageless msg t w live none_left = (
    rw (perform_skip-each msg t w live) (rw (none_left, each) refl),
    rw (live, none_left, perform_ok) refl,
  )
