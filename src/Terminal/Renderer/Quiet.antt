-- ===== src/Terminal/Renderer/Quiet.antt =====
-- What a renderer in plain mode does to the screen.
use mathlib.Core.List.{append_assoc}
use knot_ops.Prelude.{
  ℕ, Bool, true, false, Text, Option, List, [], ◌∷◌, ◌++◌, all, ◌≡◌, refl, sym, ap, ◌∙◌, arith,
}
use knot_ops.Terminal.Console.{Console, Call, Screen, call, now}
use knot_ops.Terminal.Report.{ErrorReport}
use knot_ops.Terminal.Renderer.Format.{TaskRenderingStrategy, interactive, plain, TaskRenderer}
use knot_ops.Terminal.Renderer

-- A line for the plain writer.
abbrev pub is_line : Call → Bool
is_line (Call.write_line content) = true
is_line _ = false

-- Between two states of the screen lines were written, and nothing was done to the bars.
pub record IsQuiet (w w' : Screen) : Type 0 where
  pub lines : List Call
  pub written : w'.log ≡ lines ++ w.log
  pub plain_lines : all is_line lines ≡ true
  pub same_bars : w'.bars ≡ w.bars
  pub same_anchor : w'.anchor ≡ w.anchor
  pub same_nodes : w'.node_counter ≡ w.node_counter
  pub same_panicked : w'.panicked ≡ w.panicked

all-append :
    {A : Type 0} (p : A → Bool) (xs ys : List A)
    → all p xs ≡ true
    → all p ys ≡ true
    → all p (xs ++ ys) ≡ true
all-append p [] ys h k = k
all-append p (x ∷ xs) ys h k = ground (arith, h, all-append p xs ys)

pub IsQuiet-still : (w : Screen) → IsQuiet w w
IsQuiet-still w = record {
  lines = [];
  written = refl;
  plain_lines = refl;
  same_bars = refl;
  same_anchor = refl;
  same_nodes = refl;
  same_panicked = refl;
}

pub IsQuiet-then : {w w1 w2 : Screen} → IsQuiet w w1 → IsQuiet w1 w2 → IsQuiet w w2
IsQuiet-then {w} a b = record {
  lines = b.lines ++ a.lines;
  written = b.written ∙ ap (λ l. b.lines ++ l) a.written ∙ sym (append_assoc b.lines a.lines w.log);
  plain_lines = all-append is_line b.lines a.lines b.plain_lines a.plain_lines;
  same_bars = b.same_bars ∙ a.same_bars;
  same_anchor = b.same_anchor ∙ a.same_anchor;
  same_nodes = b.same_nodes ∙ a.same_nodes;
  same_panicked = b.same_panicked ∙ a.same_panicked;
}

pub IsQuiet-line : (content : Text) (w : Screen) → IsQuiet w (call (Call.write_line content) w)
unfolding call
IsQuiet-line content w = record {
  lines = Call.write_line content ∷ [];
  written = refl;
  plain_lines = refl;
  same_bars = refl;
  same_anchor = refl;
  same_nodes = refl;
  same_panicked = refl;
}

pub IsQuiet-now : (c : Console) (w : Screen) → IsQuiet w (now c w).1
unfolding now
IsQuiet-now c w = record {
  lines = [];
  written = refl;
  plain_lines = refl;
  same_bars = refl;
  same_anchor = refl;
  same_nodes = refl;
  same_panicked = refl;
}

-- A strategy of plain mode.
abbrev pub IsPlainStrategy : TaskRenderingStrategy → Type 0
IsPlainStrategy (interactive node inserted) = ⊥
IsPlainStrategy (plain ci_prefix) = Unit {0}

abbrev pub IsPlain : TaskRenderer → Type 0
IsPlain r = IsPlainStrategy r.strategy

module _ (c : Console) where
  line-IsQuiet :
      (ci_prefix content : Text) (w : Screen)
      → IsQuiet w (Renderer.write_plain_line c ci_prefix content w)
  unfolding Renderer.write_plain_line
  line-IsQuiet ci_prefix content w = IsQuiet-line _ w

  lines-IsQuiet :
      (ci_prefix : Text) (ls : List Text) (w : Screen)
      → IsQuiet w (Renderer.write_plain_lines c ci_prefix ls w)
  unfolding Renderer.write_plain_lines
  lines-IsQuiet ci_prefix [] w = IsQuiet-still w
  lines-IsQuiet ci_prefix (l ∷ ls) w =
      IsQuiet-then (line-IsQuiet ci_prefix l w)
        (lines-IsQuiet ci_prefix ls (Renderer.write_plain_line c ci_prefix l w))

  title_on-IsQuiet :
      (s : TaskRenderingStrategy) (r : TaskRenderer) (w : Screen)
      → IsPlainStrategy s
      → IsQuiet w (Renderer.title_on c s r w)
  unfolding Renderer.title_on
  title_on-IsQuiet (interactive node inserted) r w p = absurd p
  title_on-IsQuiet (plain ci_prefix) r w p = line-IsQuiet ci_prefix _ w

  pub title-IsQuiet : (r : TaskRenderer) (w : Screen) → IsPlain r → IsQuiet w (Renderer.title c r w)
  unfolding Renderer.title
  title-IsQuiet r w p = title_on-IsQuiet r.strategy r w p

  run_on-IsQuiet :
      (s : TaskRenderingStrategy) (r : TaskRenderer) (msg : Option Text) (w : Screen)
      → IsPlainStrategy s
      → IsQuiet w (Renderer.run_on c s r msg w)
  unfolding Renderer.run_on
  run_on-IsQuiet (interactive node inserted) r msg w p = absurd p
  run_on-IsQuiet (plain ci_prefix) r msg w p = line-IsQuiet ci_prefix _ w

  pub run-IsQuiet :
      (r : TaskRenderer) (msg : Option Text) (w : Screen)
      → IsPlain r
      → IsQuiet w (Renderer.run c r msg w)
  unfolding Renderer.run
  run-IsQuiet r msg w p = run_on-IsQuiet r.strategy r msg w p

  wait_on-IsQuiet :
      (s : TaskRenderingStrategy) (r : TaskRenderer) (msg : Text) (w : Screen)
      → IsPlainStrategy s
      → IsQuiet w (Renderer.wait_on c s r msg w)
  unfolding Renderer.wait_on
  wait_on-IsQuiet (interactive node inserted) r msg w p = absurd p
  wait_on-IsQuiet (plain ci_prefix) r msg w p = line-IsQuiet ci_prefix _ w

  pub wait-IsQuiet :
      (r : TaskRenderer) (msg : Option Text) (w : Screen)
      → IsPlain r
      → IsQuiet w (Renderer.wait c r msg w)
  unfolding Renderer.wait
  wait-IsQuiet r msg w p = wait_on-IsQuiet r.strategy r _ w p

  skip_on-IsQuiet :
      (s : TaskRenderingStrategy) (r : TaskRenderer) (msg : Text) (w : Screen)
      → IsPlainStrategy s
      → IsQuiet w (Renderer.skip_on c s r msg w)
  unfolding Renderer.skip_on
  skip_on-IsQuiet (interactive node inserted) r msg w p = absurd p
  skip_on-IsQuiet (plain ci_prefix) r msg w p = line-IsQuiet ci_prefix _ w

  pub skip-IsQuiet :
      (r : TaskRenderer) (msg : Text) (w : Screen) → IsPlain r → IsQuiet w (Renderer.skip c r msg w)
  unfolding Renderer.skip
  skip-IsQuiet r msg w p = skip_on-IsQuiet r.strategy r msg w p

  success_on-IsQuiet :
      (s : TaskRenderingStrategy) (r : TaskRenderer) (msg : Text) (start : ℕ) (final_msg : Text)
      (w : Screen)
      → IsPlainStrategy s
      → IsQuiet w (Renderer.success_on c s r msg start final_msg w)
  unfolding Renderer.success_on Renderer.format_duration
  success_on-IsQuiet (interactive node inserted) r msg start final_msg w p = absurd p
  success_on-IsQuiet (plain ci_prefix) r msg start final_msg w p =
      IsQuiet-then (IsQuiet-now c w) (line-IsQuiet ci_prefix _ (now c w).1)

  pub success-IsQuiet :
      (r : TaskRenderer) (msg : Text) (start : ℕ) (w : Screen)
      → IsPlain r
      → IsQuiet w (Renderer.success c r msg start w)
  unfolding Renderer.success Renderer.format_duration
  success-IsQuiet r msg start w p =
      IsQuiet-then (IsQuiet-now c w) (success_on-IsQuiet r.strategy r msg start _ (now c w).1 p)

  fail_on-IsQuiet :
      (s : TaskRenderingStrategy) (r : TaskRenderer) (start : ℕ) (final_msg : Text) (w : Screen)
      → IsPlainStrategy s
      → IsQuiet w (Renderer.fail_on c s r start final_msg w)
  unfolding Renderer.fail_on Renderer.format_duration
  fail_on-IsQuiet (interactive node inserted) r start final_msg w p = absurd p
  fail_on-IsQuiet (plain ci_prefix) r start final_msg w p =
      IsQuiet-then (IsQuiet-now c w) (line-IsQuiet ci_prefix _ (now c w).1)

  pub fail-IsQuiet :
      (r : TaskRenderer) (start : ℕ) (w : Screen)
      → IsPlain r
      → IsQuiet w (Renderer.fail c r start w)
  unfolding Renderer.fail Renderer.format_duration
  fail-IsQuiet r start w p =
      IsQuiet-then (IsQuiet-now c w) (fail_on-IsQuiet r.strategy r start _ (now c w).1 p)

  insert_error-IsQuiet :
      (s : TaskRenderingStrategy) (r : TaskRenderer) (error : Text) (w : Screen)
      → IsPlainStrategy s
      → ((Renderer.insert_error c s r error w).0 ≡ r)
        × IsQuiet w (Renderer.insert_error c s r error w).1
  unfolding Renderer.insert_error
  insert_error-IsQuiet (interactive node inserted) r error w p = absurd p
  insert_error-IsQuiet (plain ci_prefix) r error w p =
      (refl, lines-IsQuiet ci_prefix (Renderer.lines [] (c.strip_ansi_codes error)) w)

  -- A failure in plain mode leaves the renderer as it is.
  pub fail_insert-IsQuiet :
      (r : TaskRenderer) (error : ErrorReport) (start : ℕ) (w : Screen)
      → IsPlain r
      → ((Renderer.fail_insert c r error start w).0 ≡ r)
        × IsQuiet w (Renderer.fail_insert c r error start w).1
  unfolding Renderer.fail_insert
  fail_insert-IsQuiet r error start w p =
      let (same, q) = insert_error-IsQuiet r.strategy r _ (Renderer.fail c r start w) p in
      (same, IsQuiet-then (fail-IsQuiet r start w p) q)

  separator_on-IsQuiet :
      (s : TaskRenderingStrategy) (r : TaskRenderer) (w : Screen)
      → IsPlainStrategy s
      → IsQuiet w (Renderer.separator_on c s r w)
  unfolding Renderer.separator_on
  separator_on-IsQuiet (interactive node inserted) r w p = absurd p
  separator_on-IsQuiet (plain ci_prefix) r w p = line-IsQuiet ci_prefix _ w

  pub separator-IsQuiet :
      (r : TaskRenderer) (w : Screen) → IsPlain r → IsQuiet w (Renderer.separator c r w)
  unfolding Renderer.separator
  separator-IsQuiet r w p = separator_on-IsQuiet r.strategy r w p

finish_on_plain :
    (s : TaskRenderingStrategy) (w : Screen) → IsPlainStrategy s → Renderer.finish_on s w ≡ w
unfolding Renderer.finish_on
finish_on_plain (interactive node inserted) w p = absurd p
finish_on_plain (plain ci_prefix) w p = refl

pub finish_plain : (r : TaskRenderer) (w : Screen) → IsPlain r → Renderer.finish_silently r w ≡ w
unfolding Renderer.finish_silently
finish_plain r w p = finish_on_plain r.strategy w p

clear_on_plain :
    (s : TaskRenderingStrategy) (r : TaskRenderer) (w : Screen)
    → IsPlainStrategy s
    → Renderer.clear_on s r w ≡ ([], r, w)
unfolding Renderer.clear_on
clear_on_plain (interactive node inserted) r w p = absurd p
clear_on_plain (plain ci_prefix) r w p = refl

pub clear_plain : (r : TaskRenderer) (w : Screen) → IsPlain r → Renderer.clear r w ≡ ([], r, w)
unfolding Renderer.clear
clear_plain r w p = clear_on_plain r.strategy r w p
