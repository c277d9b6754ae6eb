-- ===== src/Terminal/Renderer/Format.antt =====
-- renderer.rs: the renderer's record and the texts that it composes.
use knot_ops.Prelude.{
  ℕ, ◌+◌, ◌-◌, ◌*◌, Bool, not, Text, codes, spaces, repeat, length, is_empty_text, Option, none,
  some, List, [], ◌∷◌, ◌++◌, if◌then◌else◌, ltb, ◌==◌,
}
use knot_ops.Terminal.Console.{LayoutNode}
use knot_ops.Terminal.Style.{TaskStyle}

-- The layout and the plain writer of one engine are the `Screen`.
pub data RenderMode : Type 0 where
  interactive_mode plain_mode : RenderMode

pub data TaskRenderingStrategy : Type 0 where
  -- the node and the error bars inserted under it
  interactive : LayoutNode → List LayoutNode → TaskRenderingStrategy
  -- the prefix of each line
  plain : Text → TaskRenderingStrategy

pub record TaskRenderer : Type 0 where
  pub name : Text
  pub strategy : TaskRenderingStrategy
  pub style : TaskStyle
  pub indent_spaces : ℕ
  pub baked_indent : Text
  pub baked_running_indent : Text
  pub draw_arrow : Bool

unfoldable pub new : Text → TaskRenderingStrategy → TaskStyle → ℕ → TaskRenderer
new name strategy style indent_spaces =
    let draw_arrow = ltb 2 indent_spaces in
    record {
      name = name;
      strategy = strategy;
      style = style;
      indent_spaces = indent_spaces;
      baked_indent = spaces indent_spaces;
      baked_running_indent =
          if draw_arrow
          then spaces (indent_spaces - length style.prefix_active)
          else spaces indent_spaces;
      draw_arrow = draw_arrow;
    }

abbrev pub parenthesised : Text → Text
parenthesised msg = codes "(" ++ (msg ++ codes ")")

abbrev pub space : Text
space = codes " "

-- `name` and, if there is one, a message behind it
unfoldable pub with_status : Text → Option Text → Text
with_status name none = name
with_status name (some msg) = name ++ (space ++ msg)

unfoldable pub map_text : (Text → Text) → Option Text → Option Text
map_text f none = none
map_text f (some m) = some (f m)

-- the template `{indent}{prefix} {msg}`
unfoldable pub line_template : Text → Text
line_template indent = indent ++ codes "{prefix} {msg}"

-- The indent and, for a nested entry, the arrow.
unfoldable pub running_prefix : TaskRenderer → (Text → Text) → Text
running_prefix r paint_arrow =
    if r.draw_arrow
    then r.baked_running_indent ++ paint_arrow r.style.prefix_active
    else r.baked_running_indent

-- `separator`: a divider of 100 characters, with the header in it if there is one.
unfoldable pub divider_line : TaskRenderer → Text
divider_line r =
    let header_len = length r.name in
    let start_divider_len = 10 - 2 in
    let consumed_len = start_divider_len + 2 * 2 + header_len in
    r.baked_indent
    ++ (if not (is_empty_text r.name)
        then (if ltb 100 header_len
            then r.name
            else repeat r.style.divider start_divider_len
              ++ (spaces 2
                  ++ (r.name ++ (spaces 2 ++ repeat r.style.divider (100 - consumed_len)))))
        else repeat r.style.divider 100)

-- A line ends at its newline, and a carriage return before that is dropped.
unfoldable pub strip_cr : Text → Text
strip_cr [] = []
strip_cr (c ∷ []) = if c == 13 then [] else c ∷ []
strip_cr (c ∷ d ∷ s) = c ∷ strip_cr (d ∷ s)

-- `str::lines`, with the current line in hand; the last line may lack its newline.
unfoldable pub lines : Text → Text → List Text
unfolding strip_cr
lines line [] = if is_empty_text line then [] else line ∷ []
lines line (c ∷ s) =
    let rest = lines (if c == 10 then [] else line ++ (c ∷ [])) s in
    if c == 10 then strip_cr line ∷ rest else rest
