-- ===== src/Terminal/Layout/Rows.antt =====
-- Where the bars of a `MultiProgress` stand, as a function of the calls made.
use knot_ops.Prelude.{
  ℕ, Bool, true, false, List, [], ◌∷◌, ◌++◌, all, any, ltb, ◌==◌, ◌≡◌, refl, ◌∙◌,
}
use knot_ops.Terminal.Console.{Console, Call, Screen, call, checked}

-- A call that gives a bar its place.
abbrev pub is_placing : Call → Bool
is_placing (Call.multi_add bar) = true
is_placing (Call.multi_insert_after target bar) = true
is_placing _ = false

abbrev pub has : List ℕ → ℕ → Bool
has bars k = any (λ bar. bar == k) bars

-- What indicatif says of the order of the bars, from the top, those finished or cleared included, where
-- `rows` gives the order after the calls of a log: `add` puts a new bar below all others,
-- `insert_after` puts it right below another bar, and no other call moves a bar.
pub record IsMultiProgress (rows : List Call → List ℕ) : Type 0 where
  pub empty : rows [] ≡ []
  pub added :
      (bar : ℕ) (log : List Call)
      → has (rows log) bar ≡ false
      → rows (Call.multi_add bar ∷ log) ≡ rows log ++ (bar ∷ [])
  pub inserted :
      (target bar : ℕ) (log : List Call) (above below : List ℕ)
      → rows log ≡ above ++ (target ∷ below)
      → has above target ≡ false
      → has (rows log) bar ≡ false
      → rows (Call.multi_insert_after target bar ∷ log) ≡ above ++ (target ∷ bar ∷ below)
  pub kept : (k : Call) (log : List Call) → is_placing k ≡ false → rows (k ∷ log) ≡ rows log

-- Every bar has a number that was given out.
abbrev pub AreIssued : List ℕ → Screen → Type 0
AreIssued bars w = all (λ k. ltb k w.bars) bars ≡ true

-- Between two states of the screen no bar was made or placed, and the anchor was not moved.
pub record IsSteady (rows : List Call → List ℕ) (w w' : Screen) : Type 0 where
  pub same_rows : rows w'.log ≡ rows w.log
  pub same_bars : w'.bars ≡ w.bars
  pub same_anchor : w'.anchor ≡ w.anchor

module _ (rows : List Call → List ℕ) where
  pub IsSteady-still : (w : Screen) → IsSteady rows w w
  IsSteady-still w = record { same_rows = refl; same_bars = refl; same_anchor = refl }

  pub IsSteady-then :
      {w w1 w2 : Screen} → IsSteady rows w w1 → IsSteady rows w1 w2 → IsSteady rows w w2
  IsSteady-then a b = record {
    same_rows = b.same_rows ∙ a.same_rows;
    same_bars = b.same_bars ∙ a.same_bars;
    same_anchor = b.same_anchor ∙ a.same_anchor;
  }

module _ (rows : List Call → List ℕ) (laws : IsMultiProgress rows) where
  pub call-IsSteady : (k : Call) (w : Screen) → is_placing k ≡ false → IsSteady rows w (call k w)
  unfolding call
  call-IsSteady k w h = record {
    same_rows = laws.kept k w.log h;
    same_bars = refl;
    same_anchor = refl;
  }

module _ (rows : List Call → List ℕ) (laws : IsMultiProgress rows) (c : Console) where
  pub checked-IsSteady :
      (k : Call) (w : Screen) → is_placing k ≡ false → IsSteady rows w (checked c k w)
  unfolding checked
  checked-IsSteady k w h = record {
    same_rows = laws.kept k w.log h;
    same_bars = refl;
    same_anchor = refl;
  }

  pub two_calls-IsSteady :
      (k1 k2 : Call) (w : Screen)
      → is_placing k1 ≡ false
      → is_placing k2 ≡ false
      → IsSteady rows w (checked c k2 (checked c k1 w))
  two_calls-IsSteady k1 k2 w h1 h2 =
      IsSteady-then rows (checked-IsSteady k1 w h1) (checked-IsSteady k2 (checked c k1 w) h2)

  pub three_calls-IsSteady :
      (k1 k2 k3 : Call) (w : Screen)
      → is_placing k1 ≡ false
      → is_placing k2 ≡ false
      → is_placing k3 ≡ false
      → IsSteady rows w (checked c k3 (checked c k2 (checked c k1 w)))
  three_calls-IsSteady k1 k2 k3 w h1 h2 h3 =
      IsSteady-then rows (two_calls-IsSteady k1 k2 w h1 h2)
        (checked-IsSteady k3 (checked c k2 (checked c k1 w)) h3)
