-- ===== src/Terminal/Renderer/Width.antt =====
-- How wide the lines of renderer.rs are.
use knot_ops.Prelude.{
  ℕ, ◌+◌, ◌-◌, ◌≤◌, ◌≡◌, refl, [], ◌∷◌, Text, arith, length, length-append, length-repeat,
  length-spaces, spaces, repeat, ◌*◌, ◌++◌, is_empty_text, ltb, if◌then◌else◌,
}
use knot_ops.Terminal.Renderer.Format.{TaskRenderingStrategy, new, divider_line, running_prefix}
use knot_ops.Terminal.Style.{TaskStyle}

-- The width that the code gives a divider with a header of `n` characters.
abbrev pub divider_width : ℕ → ℕ
divider_width n = if ltb 100 n then n else if ltb 88 n then n + 12 else 100

header_width :
    (name divider : Text)
    → length divider ≡ 1
    → length (
        repeat divider 8
        ++ (spaces 2 ++ (name ++ (spaces 2 ++ repeat divider (100 - (8 + 2 * 2 + length name))))))
      ≡ 12 + length name + (88 - length name)
header_width name divider one =
    rw
      (
        length-append {0},
        length-append {0},
        length-append {0},
        length-append {0},
        length-repeat divider 8 one,
        length-spaces 2,
        length-repeat divider (100 - (12 + length name)) one,
      )
      (omega arith)

-- For a divider of one character, a divider line is as wide as its indent and, without a header or
-- with one of up to 88 characters, 100; 12 more than the header up to 100 characters; and the
-- header alone above.
pub length-divider_line :
    (name : Text) (strategy : TaskRenderingStrategy) (style : TaskStyle) (indent : ℕ)
    → length style.divider ≡ 1
    → length (divider_line (new name strategy style indent)) ≡ indent + divider_width (length name)
unfolding divider_line new is_empty_text
length-divider_line [] strategy style indent one =
    rw (length-append {0}, length-spaces indent, length-repeat style.divider 100 one) refl
length-divider_line (x ∷ name) strategy style indent one =
    rw (length-append {0}, length-spaces indent)
      (ground (arith, header_width (x ∷ name) style.divider one))

-- The indent and arrow of a running entry are as wide as the indent of the other states, for
-- every arrow that fits into the indent.
pub length-running_prefix :
    (name : Text) (strategy : TaskRenderingStrategy) (style : TaskStyle) (indent : ℕ)
    → length style.prefix_active ≤ indent
    → length (running_prefix (new name strategy style indent) (λ arrow. arrow)) ≡ indent
unfolding running_prefix new
length-running_prefix name strategy style indent fits = ground (
  arith,
  length-append (spaces (indent - length style.prefix_active)) style.prefix_active,
  length-spaces (indent - length style.prefix_active),
  length-spaces indent,
)
