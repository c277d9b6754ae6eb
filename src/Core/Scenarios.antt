-- ===== src/Core/Scenarios.antt =====
-- What the theorem about core/src/utils.rs says of a day and a bit.
use knot_ops.Prelude.{◌≡◌}
use knot_ops.Core.Utils.{format_duration}
use knot_ops.Core.Utils.Durations.{read_duration, read-format_duration}

read-format_duration_example : read_duration 0 0 (format_duration 90061) ≡ 90000
read-format_duration_example = read-format_duration 90061
