-- ===== src/Terminal/Report.antt =====
-- error.rs and utils.rs: the report printed under a failed task.
use knot_ops.Prelude.{
  trim_end, ℕ, ◌+◌, ◌-◌, ◌==◌, Bool, true, false, ◌&&◌, Text, codes, spaces, length, Option, none,
  some, List, [], ◌∷◌, ◌++◌, if◌then◌else◌, leb,
}
use knot_ops.Terminal.Console.{Console, red, yellow, dim, bold, red_bold, green_bold}

pub record ErrorReport : Type 0 where
  pub message : Text
  pub context : Option Text
  pub solution : Option Text

unfoldable pub new : Text → ErrorReport
new message = record { message = message; context = none; solution = none }

unfoldable pub with_context : Text → ErrorReport → ErrorReport
with_context context r = record r { context = some context }

unfoldable pub with_solution : Text → ErrorReport → ErrorReport
with_solution solution r = record r { solution = some solution }

-- utils.rs
unfoldable pub format_indent : ℕ → Text
format_indent level = spaces level

abbrev newline : Text
newline = 10 ∷ []

-- `str::replace("\\\\?\\", "")` drops each `\\?\`.
strip_verbatim : Text → Text
strip_verbatim [] = []
strip_verbatim (a ∷ []) = a ∷ []
strip_verbatim (a ∷ b ∷ []) = a ∷ b ∷ []
strip_verbatim (a ∷ b ∷ d ∷ []) = a ∷ b ∷ d ∷ []
strip_verbatim (a ∷ b ∷ d ∷ e ∷ rest) =
    let dropped = strip_verbatim rest in
    let kept = a ∷ strip_verbatim (b ∷ d ∷ e ∷ rest) in
    if (a == b'\\') && (b == b'\\') && (d == b'?') && (e == b'\\') then dropped else kept

-- The first line of a block carries the label, the others are indented to it.
block_lines : Text → Text → (Text → Text) → Bool → List Text → Text
block_lines border label paint_line first [] = []
block_lines border label paint_line first (line ∷ lines) =
    border
    ++ ((if first then label else spaces 10)
        ++ (paint_line line ++ (newline ++ block_lines border label paint_line false lines)))

-- A block of `ErrorReport::print` that is there only if its text is.
optional_block : Option (List Text) → Text → Text → (Text → Text) → Text
unfolding block_lines
optional_block none border label paint_line = []
optional_block (some lines) border label paint_line =
    border ++ (newline ++ block_lines border label paint_line true lines)

map_lines : (Text → List Text) → Option Text → Option (List Text)
map_lines f none = none
map_lines f (some t) = some (f t)

-- `ErrorReport::print`
unfoldable pub print : Console → ErrorReport → ℕ → Text
unfolding map_lines format_indent optional_block block_lines strip_verbatim trim_end
print c r indent_space =
    let term_width = if leb c.termwidth 100 then c.termwidth else 100 in
    let raw_border = format_indent indent_space ++ codes "│ " in
    let border = c.paint red raw_border in
    let content_width = term_width - (length raw_border + 10) in
    let issue =
      block_lines border (c.paint red_bold (codes "issue:    ")) (c.paint bold) true
        (c.wrap r.message content_width) in
    let context =
      optional_block (map_lines (λ t. c.wrap (strip_verbatim t) content_width) r.context) border
        (c.paint yellow (codes "context:  ")) (c.paint dim) in
    let solution =
      optional_block (map_lines (λ t. c.wrap t content_width) r.solution) border
        (c.paint green_bold (codes "solution: ")) (λ line. line) in
    trim_end (border ++ (newline ++ (issue ++ (context ++ solution))))
