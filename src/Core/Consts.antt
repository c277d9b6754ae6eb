-- ===== src/Core/Consts.antt =====
-- sdk/core/src/consts.rs, and the targets that the conditions of the build tell apart.
use knot_ops.Prelude.{Text, codes}

-- `cfg(unix)`, which is `cfg(not(windows))` for the targets of the program, and `cfg(windows)`.
pub data Build : Type 0 where
  unix windows : Build

abbrev pub knot_folder_name : Text
knot_folder_name = codes ".knot"

abbrev pub knot_socket_file : Text
knot_socket_file = codes "knot.sock"

abbrev pub knot_config_file : Text
knot_config_file = codes "knot.toml"

abbrev pub knot_metadata_file : Text
knot_metadata_file = codes "metadata.json"

abbrev pub knot_daemon_lock_file : Text
knot_daemon_lock_file = codes "knotd.lock"
