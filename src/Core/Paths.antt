-- ===== src/Core/Paths.antt =====
-- sdk/core/src/paths.rs.
use knot_ops.Prelude.{ℕ, Text, codes, decimal, Option, none, some, ◌++◌}
use knot_ops.Core.Consts.{Build, unix, windows}

-- What the environment says: `ProjectDirs::data_dir`, `XDG_RUNTIME_DIR`, the user's number, and how
-- paths are joined.
pub record Environment : Type 0 where
  pub data_dir : Text → Option Text
  pub xdg_runtime_dir : Option Text
  pub uid : ℕ
  pub join : Text → Text → Text

abbrev pub knot_cli_binary_name : Build → Text
knot_cli_binary_name unix = codes "knot"
knot_cli_binary_name windows = codes "knot.exe"

abbrev pub knot_daemon_binary_name : Build → Text
knot_daemon_binary_name unix = codes "knotd"
knot_daemon_binary_name windows = codes "knotd.exe"

-- `none` is a `PathResolutionError`.
unfoldable pub binary_dir : Environment → Option Text
binary_dir env = elim (env.data_dir (codes "knot")) [
  | none ↦ none
  | some dir ↦ some (env.join dir (codes "bin"))
]

in_binary_dir : Environment → Text → Option Text → Option Text
in_binary_dir env name none = none
in_binary_dir env name (some dir) = some (env.join dir name)

unfoldable pub cli_binary_path : Build → Environment → Option Text
unfolding in_binary_dir binary_dir
cli_binary_path build env = in_binary_dir env (knot_cli_binary_name build) (binary_dir env)

unfoldable pub daemon_binary_path : Build → Environment → Option Text
unfolding in_binary_dir binary_dir
daemon_binary_path build env = in_binary_dir env (knot_daemon_binary_name build) (binary_dir env)

unfoldable pub daemon_runtime_dir : Build → Environment → Text
daemon_runtime_dir windows env = codes "C:\\Windows\\Temp\\knot"
daemon_runtime_dir unix env = elim env.xdg_runtime_dir [
  | some dir ↦ env.join dir (codes "knot")
  | none ↦ codes "/run/user/" ++ (decimal env.uid ++ codes "/knot")
]
