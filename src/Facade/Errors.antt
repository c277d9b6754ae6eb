-- ===== src/Facade/Errors.antt =====
-- sdk/facade/src/errors.rs: the errors of the client, and what it tells the user about them.
use knot_ops.Prelude.{Text, codes, Option, some, ◌++◌}
use knot_ops.Sys.Errors.{
  ErrorKind, not_found, already_exists, addr_in_use, invalid_input, would_block, other, IoError,
  ProcessError, display,
}

pub data SignalError : Type 0 where
  process_error : ProcessError → SignalError
  not_responding : SignalError

pub data WorkspaceError : Type 0 where
  not_initialized : Text → WorkspaceError
  broken_data : Text → WorkspaceError

pub data DaemonLifecycleError : Type 0 where
  process_error : ProcessError → DaemonLifecycleError
  -- the message, the path of the binary and the error
  launch_failed : Text → Text → Text → DaemonLifecycleError

-- The codes of a `tonic::Status` that the program tells apart.
pub data Code : Type 0 where
  unavailable unimplemented failed_precondition permission_denied aborted other_code : Code

pub record Status : Type 0 where
  pub code : Code
  pub message : Text

-- A `tonic::transport::Error` is what it prints; a `PathResolutionError` is the only one of its kind.
pub data ClientError : Type 0 where
  workspace : WorkspaceError → ClientError
  daemon : DaemonLifecycleError → ClientError
  protocol : Status → ClientError
  transport : Text → ClientError
  io : IoError → ClientError
  contract : Text → ClientError
  path_resolution : ClientError
  wrong_revision : ClientError

unfoldable pub workspace_context : WorkspaceError → Option Text
workspace_context (not_initialized path) =
    some (codes "could not find the '.knot' directory at '" ++ (path ++ codes "'"))
workspace_context (broken_data path) =
    some (codes "the file '" ++ (path ++ codes "' contains unexpected or broken data"))

unfoldable pub workspace_solution : WorkspaceError → Option Text
workspace_solution (not_initialized path) =
    some (codes "run 'knot init' to set up a new workspace in this directory.")
workspace_solution (broken_data path) =
    some (codes "try running 'knot inspect' or delete the corrupted file to recreate it.")

unfoldable pub daemon_context : DaemonLifecycleError → Option Text
daemon_context (DaemonLifecycleError.process_error e) = some (display e)
daemon_context (launch_failed message binary_path error) = some (
    codes "attempted to launch '"
    ++ (binary_path ++ (codes "'.\ndetails: " ++ (message ++ (codes "\nsystem error: " ++ error)))))

unfoldable pub daemon_solution : DaemonLifecycleError → Option Text
daemon_solution (DaemonLifecycleError.process_error e) =
    some (codes "check the daemon logs for more details.")
daemon_solution (launch_failed message binary_path error) =
    some (codes "ensure the knot executable is present in your PATH or explicitly configured.")

protocol_solution : Code → Text
protocol_solution unavailable =
    codes "the daemon is unreachable. It may have crashed or was shut down. Run 'knot up'."
protocol_solution unimplemented =
    codes "version mismatch: the daemon does not support this execution. Update your CLI or Daemon."
protocol_solution failed_precondition =
    codes "the workspace is not in the correct state to execute this execution."
protocol_solution Code.permission_denied =
    codes "you do not have the required permissions to execute this request."
protocol_solution aborted = codes "check the daemon logs for more details using 'knot daemon logs'."
protocol_solution other_code =
    codes "check the daemon logs for more details using 'knot daemon logs'."

io_solution : ErrorKind → Text
io_solution ErrorKind.permission_denied =
    codes "verify file permissions or run the execution with elevated privileges."
io_solution not_found =
    codes "a required file or directory was not found. check your workspace paths."
io_solution already_exists =
    codes
      "a file or socket already exists where knot is trying to create one. try running 'knot inspect'."
io_solution addr_in_use =
    codes "the required port or IPC socket is already in use by another process."
io_solution invalid_input = codes "verify disk space and directory permissions."
io_solution would_block = codes "verify disk space and directory permissions."
io_solution other = codes "verify disk space and directory permissions."

-- `ClientError::context`
unfoldable pub context : ClientError → Option Text
unfolding workspace_context daemon_context
context (workspace e) = workspace_context e
context (daemon e) = daemon_context e
context (protocol status) = some status.message
context (transport e) = some e
context (io e) = some e.message
context (contract message) = some message
context path_resolution =
    some (codes "the OS reported no valid application data directory for the current user")
context wrong_revision =
    some
      (codes "handshake with the daemon not established, or a revision was changed between calls")

-- `ClientError::solution`
unfoldable pub solution : ClientError → Option Text
unfolding workspace_solution daemon_solution protocol_solution io_solution
solution (workspace e) = workspace_solution e
solution (daemon e) = daemon_solution e
solution (protocol status) = some (protocol_solution status.code)
solution (transport e) =
    some (codes "the daemon might have crashed. Try running 'knot up' or check logs.")
solution (io e) = some (io_solution e.kind)
solution (contract message) = some (codes "ensure your CLI and daemon versions match.")
solution path_resolution = some (
    codes
      "Ensure your environment has a valid home directory configured (e.g. the $HOME variable on Linux/macOS, or a valid user profile on Windows), then retry.")
solution wrong_revision = some (codes "try executing the command again")
