-- ===== src/Terminal/Console.antt =====
-- What components/shared/terminal calls but does not implement: indicatif, console, textwrap, the
-- clock and the float formatter. Functions of these libraries are fields of `Console`; calls made for
-- their effect are recorded, newest first, in the log of a `Screen`, and so is whether one panicked.
use knot_ops.Prelude.{ℕ, ◌+◌, Bool, false, not, ◌||◌, Text, Option, List, [], ◌∷◌, ltb}

-- The chains of `console::style` that the program uses.
pub data Paint : Type 0 where
  dim cyan green red yellow bold red_bold green_bold : Paint

pub record Console : Type 0 where
  -- the k-th reading of `Instant::now`, in milliseconds
  pub instant : ℕ → ℕ
  -- `{:.2}` of a number of milliseconds in seconds
  pub format_secs : ℕ → Text
  -- `style(text).….to_string()`
  pub paint : Paint → Text → Text
  pub strip_ansi_codes : Text → Text
  -- `textwrap::wrap` and `textwrap::termwidth`
  pub wrap : Text → ℕ → List Text
  pub termwidth : ℕ
  -- whether `ProgressStyle::with_template` accepts a template
  pub accepts_template : Text → Bool
  -- the number of ticks that `ProgressStyle::tick_chars` makes of a text
  pub tick_count : Text → ℕ

-- `LayoutNode` of layout/node.rs. A `ProgressBar` is shared by its clones: it is a number here.
pub record LayoutNode : Type 0 where
  pub id : ℕ
  pub bar : ℕ

-- Calls on a progress bar, on the `MultiProgress` and on the plain writer.
pub data Call : Type 0 where
  multi_add : ℕ → Call
  multi_insert_after : ℕ → ℕ → Call
  set_style : ℕ → Text → Call
  set_tick_style : ℕ → Text → Text → Call
  set_prefix : ℕ → Text → Call
  set_message : ℕ → Text → Call
  enable_steady_tick : ℕ → ℕ → Call
  finish : ℕ → Call
  finish_with_message : ℕ → Text → Call
  finish_and_clear : ℕ → Call
  write_line : Text → Call

-- What the parts of one engine share: the layout's anchor and node counter, and the outside world:
-- the calls made, the number of progress bars created and of clock readings taken, and whether the
-- program has panicked at a template. The flag is never cleared: once it is set, the program has
-- stopped at the first such call, and what the model computes after it is not reached.
pub record Screen : Type 0 where
  pub log : List Call
  pub anchor : Option LayoutNode
  pub node_counter : ℕ
  pub bars : ℕ
  pub readings : ℕ
  pub panicked : Bool

unfoldable pub call : Call → Screen → Screen
call k w = record w { log = k ∷ w.log }

-- `ProgressBar::new(0)`
unfoldable pub new_bar : Screen → ℕ × Screen
new_bar w = (w.bars, record w { bars = w.bars + 1 })

-- `Instant::now()`
unfoldable pub now : Console → Screen → ℕ × Screen
now c w = (c.instant w.readings, record w { readings = w.readings + 1 })

-- Whether a call panics: `with_template(..).unwrap()` on a template that is not accepted, and
-- `tick_chars`, which asserts at least two ticks.
unfoldable pub refused : Console → Call → Bool
refused c (Call.set_style bar template) = not (c.accepts_template template)
refused c (Call.set_tick_style bar template frames) =
    not (c.accepts_template template) || ltb (c.tick_count frames) 2
refused c _ = false

-- A call that may panic.
unfoldable pub checked : Console → Call → Screen → Screen
unfolding refused
checked c k w = record w { log = k ∷ w.log; panicked = w.panicked || refused c k }

-- Several calls, in order.
unfoldable pub call_all : Console → List Call → Screen → Screen
unfolding checked
call_all c [] w = w
call_all c (k ∷ ks) w = call_all c ks (checked c k w)
