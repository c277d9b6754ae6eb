-- ===== src/Core/Utils.antt =====
-- core/src/utils.rs: how long a daemon has been up. The clock is an argument.
pub mod Durations
use knot_ops.Prelude.{ℕ, ◌-◌, ◌/◌, ◌%◌, ◌++◌, ltb, if◌then◌else◌, Text, codes, decimal}

-- `format!("{}a {}b", x, y)`
abbrev two_units : ℕ → Text → ℕ → Text → Text
two_units x a y b = decimal x ++ (a ++ (decimal y ++ b))

unfoldable pub format_duration : ℕ → Text
format_duration secs =
    if ltb secs 60
    then decimal secs ++ codes "s"
    else if ltb (secs / 60) 60
    then two_units (secs / 60) (codes "m ") (secs % 60) (codes "s")
    else if ltb (secs / 60 / 60) 24
    then two_units (secs / 60 / 60) (codes "h ") (secs / 60 % 60) (codes "m")
    else two_units (secs / 60 / 60 / 24) (codes "d ") (secs / 60 / 60 % 24) (codes "h")

unfoldable pub format_uptime : ℕ → ℕ → Text
unfolding format_duration
format_uptime now_ms started_at_ms =
    if ltb now_ms started_at_ms
    then codes "just started"
    else format_duration ((now_ms - started_at_ms) / 1000)
