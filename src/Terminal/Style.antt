-- ===== src/Terminal/Style.antt =====
-- style.rs: prefixes, spinner frames and dividers.
use knot_ops.Prelude.{Text, codes}

pub record TaskStyle : Type 0 where
  pub prefix_title : Text
  pub prefix_active : Text
  pub prefix_success : Text
  pub prefix_fail : Text
  pub prefix_skip : Text
  pub prefix_wait : Text
  pub run_frame : Text
  pub divider : Text

unfoldable pub modern : TaskStyle
modern = record {
  prefix_title = codes "▶";
  prefix_success = codes "✔ ";
  prefix_active = codes "> ";
  prefix_fail = codes "✖ ";
  prefix_skip = codes "↷ ";
  prefix_wait = codes "· ";
  run_frame = codes "⠋⠙⠹⠸⠼⠴⠦⠧⠇⠏";
  divider = codes "─";
}

unfoldable pub plain : TaskStyle
plain = record {
  prefix_title = codes "[TASK]";
  prefix_success = codes "[SUCCESS]";
  prefix_active = codes "> ";
  prefix_fail = codes "[FAIL]";
  prefix_skip = codes "[SKIP]";
  prefix_wait = codes "[WAIT]";
  run_frame = codes "[START]";
  divider = codes "─";
}
