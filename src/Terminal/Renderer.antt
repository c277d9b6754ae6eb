-- ===== src/Terminal/Renderer.antt =====
-- renderer.rs: how a state of a task, stage or step is put on the screen. A call that panics, at a
-- template that is not accepted or at a spinner of less than two ticks, sets the flag of the screen.
mod Format
pub mod Width
pub mod Quiet
pub mod Steady
pub mod Panics
use knot_ops.Prelude.{
  ℕ, ◌-◌, Text, codes, is_empty_text, Option, List, [], ◌∷◌, ◌++◌, if◌then◌else◌,
}
use knot_ops.Terminal.Console.{
  Console, dim, cyan, green, red, LayoutNode, Call, Screen, call, call_all, new_bar, now,
}
use knot_ops.Terminal.Layout.{insert_after}
use knot_ops.Terminal.Report.{ErrorReport, print}
use Format.{parenthesised, space, with_status, map_text}
pub use Format.{RenderMode, interactive_mode, plain_mode, TaskRenderer}
pub use Format.{TaskRenderingStrategy, interactive, plain}
unfoldable pub use Format.{new, line_template, running_prefix, divider_line, lines}

module _ (c : Console) where
  write_plain_line : Text → Text → Screen → Screen
  unfolding call
  write_plain_line ci_prefix content = call (
      Call.write_line (
        c.strip_ansi_codes
          (if is_empty_text ci_prefix then content else ci_prefix ++ (space ++ content))))

  -- `[{:.2}s]` of the time since `start`, dimmed; `elapsed` stops at 0
  format_duration : ℕ → Screen → Text × Screen
  unfolding now
  format_duration start w =
      let (at, w1) = now c w in
      (c.paint dim (codes "[" ++ (c.format_secs (at - start) ++ codes "s]")), w1)

  write_plain_lines : Text → List Text → Screen → Screen
  unfolding write_plain_line
  write_plain_lines ci_prefix [] w = w
  write_plain_lines ci_prefix (l ∷ ls) w =
      write_plain_lines ci_prefix ls (write_plain_line ci_prefix l w)

  title_on : TaskRenderingStrategy → TaskRenderer → Screen → Screen
  unfolding write_plain_line call_all line_template
  title_on (interactive node _) r w =
      call_all c
        (Call.set_style node.bar (line_template r.baked_indent)
          ∷ Call.set_prefix node.bar (c.paint cyan r.style.prefix_title)
          ∷ Call.set_message node.bar r.name
          ∷ [])
        w
  title_on (plain ci_prefix) r w =
      write_plain_line ci_prefix (r.baked_indent ++ (r.style.prefix_title ++ (space ++ r.name))) w

  unfoldable pub title : TaskRenderer → Screen → Screen
  unfolding title_on
  title r w = title_on r.strategy r w

  run_on : TaskRenderingStrategy → TaskRenderer → Option Text → Screen → Screen
  unfolding write_plain_line call_all running_prefix with_status map_text
  run_on (interactive node _) r msg w =
      call_all c
        (Call.set_tick_style node.bar
            (running_prefix r (c.paint dim) ++ codes "{spinner:.cyan}  {msg}") r.style.run_frame
          ∷ Call.enable_steady_tick node.bar 80
          ∷ Call.set_message node.bar
              (with_status r.name (map_text (λ m. c.paint dim (parenthesised m)) msg))
          ∷ [])
        w
  run_on (plain ci_prefix) r msg w =
      write_plain_line ci_prefix
        (running_prefix r (λ arrow. arrow)
          ++ (r.style.run_frame ++ (space ++ with_status r.name (map_text parenthesised msg))))
        w

  unfoldable pub run : TaskRenderer → Option Text → Screen → Screen
  unfolding run_on
  run r msg w = run_on r.strategy r msg w

  wait_on : TaskRenderingStrategy → TaskRenderer → Text → Screen → Screen
  unfolding write_plain_line call_all line_template
  wait_on (interactive node _) r final_msg w =
      call_all c
        (Call.set_style node.bar (line_template r.baked_indent)
          ∷ Call.set_prefix node.bar (c.paint dim r.style.prefix_wait)
          ∷ Call.set_message node.bar (c.paint dim final_msg)
          ∷ [])
        w
  wait_on (plain ci_prefix) r final_msg w =
      write_plain_line ci_prefix (r.baked_indent ++ (r.style.prefix_wait ++ (space ++ final_msg))) w

  unfoldable pub wait : TaskRenderer → Option Text → Screen → Screen
  unfolding wait_on with_status map_text
  wait r msg w = wait_on r.strategy r (with_status r.name (map_text parenthesised msg)) w

  skip_on : TaskRenderingStrategy → TaskRenderer → Text → Screen → Screen
  unfolding write_plain_line call_all line_template
  skip_on (interactive node _) r msg w =
      call_all c
        (Call.set_style node.bar (line_template r.baked_indent)
          ∷ Call.set_prefix node.bar (c.paint dim r.style.prefix_skip)
          ∷ Call.finish_with_message node.bar (r.name ++ (space ++ c.paint dim (parenthesised msg)))
          ∷ [])
        w
  skip_on (plain ci_prefix) r msg w =
      write_plain_line ci_prefix
        (r.baked_indent
          ++ (r.style.prefix_skip ++ (space ++ (r.name ++ (space ++ parenthesised msg)))))
        w

  unfoldable pub skip : TaskRenderer → Text → Screen → Screen
  unfolding skip_on
  skip r msg w = skip_on r.strategy r msg w

  success_on : TaskRenderingStrategy → TaskRenderer → Text → ℕ → Text → Screen → Screen
  unfolding write_plain_line call_all line_template format_duration
  success_on (interactive node _) r msg start final_msg w =
      call_all c
        (Call.set_style node.bar (line_template r.baked_indent)
          ∷ Call.set_prefix node.bar (c.paint green r.style.prefix_success)
          ∷ Call.finish_with_message node.bar final_msg
          ∷ [])
        w
  success_on (plain ci_prefix) r msg start final_msg w =
      let (duration, w1) = format_duration start w in
      write_plain_line ci_prefix
        (r.baked_indent
          ++ (r.style.prefix_success
              ++ (space ++ (r.name ++ (space ++ (parenthesised msg ++ (space ++ duration)))))))
        w1

  -- The interactive message is built first, in plain mode too: the clock is read twice there.
  unfoldable pub success : TaskRenderer → Text → ℕ → Screen → Screen
  unfolding success_on format_duration
  success r msg start w =
      let (duration, w1) = format_duration start w in
      success_on r.strategy r msg start
        (r.name ++ (space ++ (c.paint green (parenthesised msg) ++ (space ++ duration)))) w1

  fail_on : TaskRenderingStrategy → TaskRenderer → ℕ → Text → Screen → Screen
  unfolding write_plain_line call_all line_template format_duration
  fail_on (interactive node _) r start final_msg w =
      call_all c
        (Call.set_style node.bar (line_template r.baked_indent)
          ∷ Call.set_prefix node.bar (c.paint red r.style.prefix_fail)
          ∷ Call.finish_with_message node.bar final_msg
          ∷ [])
        w
  fail_on (plain ci_prefix) r start final_msg w =
      let (duration, w1) = format_duration start w in
      write_plain_line ci_prefix
        (r.baked_indent
          ++ (r.style.prefix_fail ++ (space ++ (r.name ++ (codes " (fail) " ++ duration)))))
        w1

  unfoldable pub fail : TaskRenderer → ℕ → Screen → Screen
  unfolding fail_on format_duration
  fail r start w =
      let (duration, w1) = format_duration start w in
      fail_on r.strategy r start
        (r.name ++ (space ++ (c.paint red (codes "(fail)") ++ (space ++ duration)))) w1

  insert_error : TaskRenderingStrategy → TaskRenderer → Text → Screen → TaskRenderer × Screen
  unfolding write_plain_lines lines call_all
  insert_error (interactive node inserted) r error w =
      let (bar, w1) = new_bar w in
      let (error_bar, w2) = insert_after node bar w1 in
      (
        record r { strategy = interactive node (inserted ++ (error_bar ∷ [])) },
        call_all c
            (Call.set_style error_bar.bar (codes "{msg}")
              ∷ Call.finish_with_message error_bar.bar error
              ∷ [])
            w2,
      )
  insert_error (plain ci_prefix) r error w =
      (r, write_plain_lines ci_prefix (lines [] (c.strip_ansi_codes error)) w)

  unfoldable pub fail_insert : TaskRenderer → ErrorReport → ℕ → Screen → TaskRenderer × Screen
  unfolding insert_error
  fail_insert r error start w =
      insert_error r.strategy r (print c error r.indent_spaces) (fail r start w)

  separator_on : TaskRenderingStrategy → TaskRenderer → Screen → Screen
  unfolding write_plain_line call_all divider_line
  separator_on (interactive node _) r w =
      call_all c
        (Call.set_style node.bar (c.paint dim (divider_line r)) ∷ Call.finish node.bar ∷ []) w
  separator_on (plain ci_prefix) r w = write_plain_line ci_prefix (divider_line r) w

  unfoldable pub separator : TaskRenderer → Screen → Screen
  unfolding separator_on
  separator r w = separator_on r.strategy r w

finish_all : List LayoutNode → Screen → Screen
unfolding call
finish_all [] w = w
finish_all (node ∷ nodes) w = finish_all nodes (call (Call.finish node.bar) w)

finish_on : TaskRenderingStrategy → Screen → Screen
unfolding finish_all call
finish_on (interactive node inserted) w = finish_all inserted (call (Call.finish node.bar) w)
finish_on (plain ci_prefix) w = w

unfoldable pub finish_silently : TaskRenderer → Screen → Screen
unfolding finish_on
finish_silently r w = finish_on r.strategy w

clear_all : List LayoutNode → Screen → Screen
unfolding call
clear_all [] w = w
clear_all (node ∷ nodes) w = clear_all nodes (call (Call.finish_and_clear node.bar) w)

clear_on : TaskRenderingStrategy → TaskRenderer → Screen → List LayoutNode × TaskRenderer × Screen
unfolding clear_all
clear_on (interactive node inserted) r w =
    (node ∷ inserted, record r { strategy = interactive node [] }, clear_all (node ∷ inserted) w)
clear_on (plain ci_prefix) r w = ([], r, w)

-- The nodes that were cleared; the inserted error bars are drained.
unfoldable pub clear : TaskRenderer → Screen → List LayoutNode × TaskRenderer × Screen
unfolding clear_on
clear r w = clear_on r.strategy r w
