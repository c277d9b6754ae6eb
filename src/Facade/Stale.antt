-- ===== src/Facade/Stale.antt =====
-- sdk/facade/src/handles/stale.rs: the files of a dead daemon are removed. The file
-- system is a record of operations on the outside world `W`.
pub mod Purge
use knot_ops.Prelude.{Bool, true, false, Text, codes, if◌then◌else◌}
use knot_ops.Core.Consts.{Build, unix, windows, knot_socket_file, knot_daemon_lock_file}
use knot_ops.Sys.Errors.{
  ErrorKind, not_found, permission_denied, already_exists, addr_in_use, invalid_input, would_block,
  other, IoError, Result, ok, err, Action, is_not_found, ◌>>=◌, ◌>>◌, pure,
}
use knot_ops.Facade.Policies.{PolicyConfig}

pub record Files (W : Type 0) : Type 0 where
  -- `PathBuf::join`
  pub join : Text → Text → Text
  -- `Path::exists`, which reads the file system
  pub exists : Text → W → Bool
  pub remove_file : Text → Action W IoError (Unit {0})
  -- `tokio::fs::read_to_string`
  pub read_to_string : Text → Action W IoError Text

pub record StaleHandle : Type 0 where
  pub runtime_dir : Text
  pub daemon_path : Text
  pub policy : PolicyConfig

pub record OfflineHandle : Type 0 where
  pub runtime_dir : Text
  pub daemon_path : Text
  pub policy : PolicyConfig

unfoldable pub offline : StaleHandle → OfflineHandle
offline h = record { runtime_dir = h.runtime_dir; daemon_path = h.daemon_path; policy = h.policy }

-- A file that is not there need not be removed.
unfoldable pub missing_is_fine :
    {W : Type 0} → Result (Unit {0}) IoError × W → Result (Unit {0}) IoError × W
missing_is_fine (ok u, w) = (ok u, w)
missing_is_fine (err e, w) = if is_not_found e.kind then (ok tt, w) else (err e, w)

module _ {W : Type 0} (fs : Files W) where
  unfoldable pub socket_path : Text → Text
  socket_path runtime_dir = fs.join runtime_dir knot_socket_file

  unfoldable pub lock_path : Text → Text
  lock_path runtime_dir = fs.join runtime_dir knot_daemon_lock_file

  -- Under `cfg(not(windows))`; a named pipe is no file.
  unfoldable pub socket_there : Build → Text → W → Bool
  unfolding socket_path
  socket_there unix dir w = fs.exists (socket_path dir) w
  socket_there windows dir w = false

  remove_socket : Build → Text → Action W IoError (Unit {0})
  unfolding socket_path
  remove_socket windows dir w = (ok tt, w)
  remove_socket unix dir w =
      if fs.exists (socket_path dir) w then fs.remove_file (socket_path dir) w else (ok tt, w)

  remove_lock : Text → Action W IoError (Unit {0})
  unfolding lock_path missing_is_fine
  remove_lock dir w = missing_is_fine (fs.remove_file (lock_path dir) w)

  unfoldable pub clean : Build → StaleHandle → Action W IoError OfflineHandle
  unfolding remove_socket remove_lock offline
  clean build h = do remove_socket build h.runtime_dir; remove_lock h.runtime_dir; pure (offline h)
