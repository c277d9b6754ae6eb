-- ===== src/Terminal/Layout/Cursor.antt =====
-- A place among the bars of a `MultiProgress`, as bars are put there.
use mathlib.Core.List.{append_assoc, append-nil}
use knot_ops.Prelude.{
  ℕ, ◌+◌, Bool, true, false, ◌&&◌, Option, none, some, List, [], ◌∷◌, ◌++◌, all, ltb, ◌≡◌, refl,
  sym, ap, ◌∙◌, subst, arith, if◌then◌else◌,
}
use knot_ops.Terminal.Console.{LayoutNode, Call, Screen, call, new_bar}
use knot_ops.Terminal.Layout.{next_id, set_anchor, insert, insert_after, is_current}
use knot_ops.Terminal.Layout.Rows.{has, IsMultiProgress, AreIssued, IsSteady}

-- A place among the bars: those down to a node, and those below it.
pub record IsCursor (rows : List Call → List ℕ) (w : Screen) (point : LayoutNode)
    (shown below : List ℕ) : Type 0 where
  pub order : rows w.log ≡ shown ++ below
  pub init : List ℕ
  pub ends : shown ≡ init ++ (point.bar ∷ [])
  pub alone : has init point.bar ≡ false
  pub issued : AreIssued (shown ++ below) w

all-append : (p : ℕ → Bool) (xs ys : List ℕ) → all p (xs ++ ys) ≡ (all p xs && all p ys)
all-append p [] ys = refl
all-append p (x ∷ xs) ys = ground (arith, all-append p xs ys)

issued_absent : (n : ℕ) (xs : List ℕ) → all (λ k. ltb k n) xs ≡ true → has xs n ≡ false
issued_absent n [] h = refl
issued_absent n (x ∷ xs) h = ground (arith, h, issued_absent n xs)

issued_later :
    (n : ℕ) (xs : List ℕ) → all (λ k. ltb k n) xs ≡ true → all (λ k. ltb k (n + 1)) xs ≡ true
issued_later n [] h = refl
issued_later n (x ∷ xs) h = ground (arith, h, issued_later n xs)

-- A new bar between the two parts of a list.
issued_between :
    (n : ℕ) (xs ys : List ℕ)
    → all (λ k. ltb k n) (xs ++ ys) ≡ true
    → all (λ k. ltb k (n + 1)) ((xs ++ (n ∷ [])) ++ ys) ≡ true
issued_between n [] ys h = ground (arith, issued_later n ys h)
issued_between n (x ∷ xs) ys h = ground (arith, issued_between n xs ys, h)

pub issued_above :
    (n : ℕ) (xs ys : List ℕ) → all (λ k. ltb k n) (xs ++ ys) ≡ true → has xs n ≡ false
issued_above n xs ys h = issued_absent n xs (ground (arith, all-append (λ k. ltb k n) xs ys, h))

regroup :
    (init : List ℕ) (p b : ℕ) (below : List ℕ)
    → init ++ (p ∷ b ∷ below) ≡ ((init ++ (p ∷ [])) ++ (b ∷ [])) ++ below
regroup [] p b below = refl
regroup (x ∷ init) p b below = ap (λ l. x ∷ l) (regroup init p b below)

if_anchored_log :
    (b : Bool) (node : LayoutNode) (w : Screen) → (if b then set_anchor node w else w).log ≡ w.log
unfolding set_anchor
if_anchored_log true node w = refl
if_anchored_log false node w = refl

if_anchored_bars :
    (b : Bool) (node : LayoutNode) (w : Screen) → (if b then set_anchor node w else w).bars ≡ w.bars
unfolding set_anchor
if_anchored_bars true node w = refl
if_anchored_bars false node w = refl

insert_after_log :
    (point : LayoutNode) (bar : ℕ) (w : Screen)
    → (insert_after point bar w).1.log ≡ Call.multi_insert_after point.bar bar ∷ w.log
unfolding insert_after next_id call
insert_after_log point bar w = if_anchored_log (is_current w.anchor point) _ _

insert_after_bars :
    (point : LayoutNode) (bar : ℕ) (w : Screen) → (insert_after point bar w).1.bars ≡ w.bars
unfolding insert_after next_id call
insert_after_bars point bar w = if_anchored_bars (is_current w.anchor point) _ _

module _ (rows : List Call → List ℕ) where
  pub IsCursor-steady :
      {w w' : Screen} {point : LayoutNode} {shown below : List ℕ}
      → IsSteady rows w w'
      → IsCursor rows w point shown below
      → IsCursor rows w' point shown below
  IsCursor-steady {w} {w'} {point} {shown} {below} s v = record {
    order = s.same_rows ∙ v.order;
    init = v.init;
    ends = v.ends;
    alone = v.alone;
    issued = ap (λ n. all (λ k. ltb k n) (shown ++ below)) s.same_bars ∙ v.issued;
  }

module _ (rows : List Call → List ℕ) (laws : IsMultiProgress rows) where
  -- A new bar that is inserted behind a node is the next one shown.
  pub insert_after-IsCursor :
      (w w1 : Screen) (point : LayoutNode) (shown below : List ℕ)
      → IsCursor rows w point shown below
      → IsSteady rows (new_bar w).1 w1
      → let (node, w2) = insert_after point (new_bar w).0 w1 in
        (node.bar ≡ w.bars) × IsCursor rows w2 node (shown ++ (w.bars ∷ [])) below
  unfolding insert_after next_id new_bar
  insert_after-IsCursor w w1 point shown below v s =
      let at : rows w1.log ≡ v.init ++ (point.bar ∷ below) =
        s.same_rows
        ∙ v.order
        ∙ ap (λ l. l ++ below) v.ends
        ∙ append_assoc v.init (point.bar ∷ []) below in
      let absent : has (rows w1.log) w.bars ≡ false =
        ap (λ l. has l w.bars) (s.same_rows ∙ v.order)
        ∙ issued_absent w.bars (shown ++ below) v.issued in
      let grown = (shown ++ (w.bars ∷ [])) ++ below in
      (
        refl,
        record {
          order =
              ap rows (insert_after_log point w.bars w1)
              ∙ laws.inserted point.bar w.bars w1.log v.init below at v.alone absent
              ∙ regroup v.init point.bar w.bars below
              ∙ ap (λ l. (l ++ (w.bars ∷ [])) ++ below) (sym v.ends);
          init = shown;
          ends = refl;
          alone = issued_above w.bars shown below v.issued;
          issued =
              ap (λ n. all (λ k. ltb k n) grown) (insert_after_bars point w.bars w1 ∙ s.same_bars)
              ∙ issued_between w.bars shown below v.issued;
        },
      )

-- What the layout knows of the bars: the numbers were given out, and the anchor is one of them.
abbrev pub Slot : Option LayoutNode → List ℕ → List ℕ → Type 0
Slot none above below = below ≡ []
Slot (some node) above below =
    (init : List ℕ) × (above ≡ init ++ (node.bar ∷ [])) × (has init node.bar ≡ false)

-- The next task goes between the two parts of the rows.
pub record IsLaidOut (rows : List Call → List ℕ) (w : Screen) (above below : List ℕ) : Type 0 where
  pub order : rows w.log ≡ above ++ below
  pub slot : Slot w.anchor above below
  pub issued : AreIssued (above ++ below) w

module _ (rows : List Call → List ℕ) (laws : IsMultiProgress rows) where
  placed :
      (anchor : Option LayoutNode) (w : Screen) (bar : ℕ) (above below : List ℕ)
      → rows w.log ≡ above ++ below
      → Slot anchor above below
      → has (above ++ below) bar ≡ false
      → rows
          (elim anchor as (λ _. Screen) [
            | some anchor_bar ↦ call (Call.multi_insert_after anchor_bar.bar bar) w
            | none ↦ call (Call.multi_add bar) w
          ]).log
        ≡ (above ++ (bar ∷ [])) ++ below
  unfolding call
  placed none w bar above below order slot absent =
      laws.added bar w.log (ap (λ l. has l bar) order ∙ absent)
      ∙ ap (λ l. l ++ (bar ∷ [])) order
      ∙ rw slot (simp (append_assoc, append-nil))
  placed (some node) w bar above below order (init, ends, alone) absent =
      laws.inserted node.bar bar w.log init below
        (order ∙ ap (λ l. l ++ below) ends ∙ append_assoc init (node.bar ∷ []) below) alone
        (ap (λ l. has l bar) order ∙ absent)
      ∙ regroup init node.bar bar below
      ∙ ap (λ l. (l ++ (bar ∷ [])) ++ below) (sym ends)

  placed_bars :
      (anchor : Option LayoutNode) (w : Screen) (bar : ℕ)
      → (elim anchor as (λ _. Screen) [
        | some anchor_bar ↦ call (Call.multi_insert_after anchor_bar.bar bar) w
        | none ↦ call (Call.multi_add bar) w
      ]).bars
        ≡ w.bars
  unfolding call
  placed_bars none w bar = refl
  placed_bars (some node) w bar = refl

  -- The first bar of a task goes to the anchor, or below all others.
  pub insert-IsCursor :
      (w : Screen) (above below : List ℕ)
      → IsLaidOut rows w above below
      → let (node, w1) = insert (new_bar w).0 (new_bar w).1 in
        (node.bar ≡ w.bars) × IsCursor rows w1 node (above ++ (w.bars ∷ [])) below
  unfolding insert new_bar next_id set_anchor
  insert-IsCursor w above below v =
      let w0 = (new_bar w).1 in
      (
        refl,
        record {
          order =
              placed w.anchor w0 w.bars above below v.order v.slot
                (issued_absent w.bars (above ++ below) v.issued);
          init = above;
          ends = refl;
          alone = issued_above w.bars above below v.issued;
          issued =
              ap (λ n. all (λ k. ltb k n) ((above ++ (w.bars ∷ [])) ++ below))
                (placed_bars w.anchor w0 w.bars)
              ∙ issued_between w.bars above below v.issued;
        },
      )

  -- The node that the anchor was set to.
  pub set_anchor-IsLaidOut :
      (w : Screen) (node : LayoutNode) (shown below : List ℕ)
      → IsCursor rows w node shown below
      → IsLaidOut rows (set_anchor node w) shown below
  unfolding set_anchor
  set_anchor-IsLaidOut w node shown below v = record {
    order = v.order;
    slot = (v.init, v.ends, v.alone);
    issued = v.issued;
  }

pub IsLaidOut-steady :
    (rows : List Call → List ℕ) {w w' : Screen} {above below : List ℕ}
    → IsSteady rows w w'
    → IsLaidOut rows w above below
    → IsLaidOut rows w' above below
IsLaidOut-steady rows {w} {w'} {above} {below} s v = record {
  order = s.same_rows ∙ v.order;
  slot = subst (λ a. Slot a above below) (sym s.same_anchor) v.slot;
  issued = ap (λ n. all (λ k. ltb k n) (above ++ below)) s.same_bars ∙ v.issued;
}
