-- ===== src/Grpc/Resolver.antt =====
-- sdk/grpc/src/resolver.rs: from a path to the name of a socket. A path is the list of its bytes.
use knot_ops.Prelude.{
  Text, codes, Option, none, some, ◌++◌, length, is_empty_text, ltb, if◌then◌else◌,
}
use knot_ops.Core.Consts.{Build, unix, windows}
use knot_ops.Sys.Errors.{invalid_input, IoError, Result, err, map_err}

-- The target, what interprocess does with a path and a name, and how a path and an error are shown.
pub record SocketNames (N : Type 0) : Type 0 where
  pub target : Build
  pub show_path : Text → Text
  pub to_fs_name : Text → Result N IoError
  pub to_ns_name : Text → Result N IoError
  -- `Path::file_name`, if it is valid Unicode
  pub file_name : Text → Option Text

abbrev invalid : Text → IoError
invalid message = record { kind = invalid_input; raw_os_error = Option.none; message = message }

module _ {N : Type 0} (names : SocketNames N) where
  -- Under `cfg(unix)`.
  unfoldable pub resolve_unix : Text → Result N IoError
  resolve_unix path =
      if is_empty_text path
      then err (invalid (codes "Socket path is empty: " ++ names.show_path path))
      else if ltb 100 (length path)
      then err (
          invalid
            (codes "Unix socket path is too long (limit 100 chars): " ++ names.show_path path))
      else map_err (λ e. invalid (codes "Failed to create Unix socket path: " ++ e.message))
          (names.to_fs_name path)

  named_pipe : Text → Option Text → Result N IoError
  named_pipe path none =
      err (invalid (codes "Socket path does not have a valid file name: " ++ names.show_path path))
  named_pipe path (some name) =
      map_err (λ e. invalid (codes "Failed to create Windows namespace socket name: " ++ e.message))
        (names.to_ns_name name)

  -- Under `cfg(windows)`.
  unfoldable pub resolve_windows : Text → Result N IoError
  unfolding named_pipe
  resolve_windows path =
      if is_empty_text path
      then err (invalid (codes "Socket path is empty: " ++ names.show_path path))
      else named_pipe path (names.file_name path)

  unfoldable pub resolve_on : Build → Text → Result N IoError
  unfolding resolve_unix resolve_windows
  resolve_on unix path = resolve_unix path
  resolve_on windows path = resolve_windows path

  -- `resolve_socket_name`
  unfoldable pub resolve : Text → Result N IoError
  unfolding resolve_on
  resolve path = resolve_on names.target path
