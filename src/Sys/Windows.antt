-- ===== src/Sys/Windows.antt =====
-- sys/src/sys/windows.rs: processes held by a native handle. Times are milliseconds.
pub mod Truthful
use knot_ops.Prelude.{
  ℕ, zero, suc, ◌+◌, ◌^◌, ◌-◌, ◌==◌, Bool, true, false, not, ◌||◌, Text, codes, Option, none, some,
  ltb, if◌then◌else◌,
}
use knot_ops.Sys.Errors.{
  IoError, other_error, ProcessError, not_running, io, Result, ok, err, Action, ◌>>=◌,
}
use knot_ops.Sys.Process.{ProcessMetadata, ProcessControl}

-- The calls of the Windows API, and the blocking task of tokio; `H` is an owned handle.
pub record Api (W H : Type 0) : Type 0 where
  -- access rights and process id; a null handle is the error of `GetLastError`
  pub open_process : ℕ → ℕ → Action W IoError H
  -- the exit code to give; a result of 0 is the last error
  pub terminate_process : H → ℕ → Action W IoError (Unit {0})
  pub exit_code_process : H → Action W IoError ℕ
  pub try_clone : H → Action W IoError H
  pub wait_for_single_object : H → ℕ → W → ℕ × W
  pub last_os_error : W → IoError
  -- whether the blocking task was lost, and how
  pub join_failure : W → Option Text

abbrev is_missing : Option ℕ → Bool
is_missing none = false
-- `ERROR_INVALID_PARAMETER` and `ERROR_NOT_FOUND`
is_missing (some code) = code == 87 || code == 1168

unfoldable pub map_signal_error : IoError → ProcessError
map_signal_error e = if is_missing e.raw_os_error then not_running else io e

-- `PROCESS_TERMINATE | PROCESS_QUERY_LIMITED_INFORMATION | PROCESS_SYNCHRONIZE`
abbrev access_rights : ℕ
access_rights = 0x1 + 0x1000 + 0x100000

abbrev pub u32_max : ℕ
u32_max = 2 ^ 32 - 1

unfoldable pub clamp_timeout : ℕ → ℕ
clamp_timeout timeout = if ltb timeout u32_max then timeout else u32_max

module _ {W H : Type 0} (api : Api W H) where
  opened : Result H IoError × W → Result H ProcessError × W
  unfolding map_signal_error
  opened (ok handle, w) = (ok handle, w)
  opened (err e, w) = (err (map_signal_error e), w)

  unfoldable pub bind : ProcessMetadata → Action W ProcessError H
  unfolding opened
  bind metadata w = opened (api.open_process access_rights metadata.pid w)

  -- `STILL_ACTIVE` is 259.
  exited : Result ℕ IoError × W → Result Bool IoError × W
  exited (ok exit_code, w) = (ok (not (exit_code == 259)), w)
  exited (err e, w) = (err e, w)

  unfoldable pub is_process_exited : H → Action W IoError Bool
  unfolding exited
  is_process_exited handle w = exited (api.exit_code_process handle w)

  -- After a failed termination: the process may have ended by itself.
  after_failure : IoError → Result Bool IoError × W → Result (Unit {0}) ProcessError × W
  after_failure error (ok true, w) = (ok tt, w)
  after_failure error (ok false, w) = (err (io error), w)
  after_failure error (err e, w) = (err (io e), w)

  terminated : H → Result (Unit {0}) IoError × W → Result (Unit {0}) ProcessError × W
  unfolding after_failure is_process_exited
  terminated handle (ok u, w) = (ok tt, w)
  terminated handle (err error, w) = after_failure error (is_process_exited handle w)

  unfoldable pub kill : H → Action W ProcessError (Unit {0})
  unfolding terminated
  kill handle w = terminated handle (api.terminate_process handle 1 w)

  -- The result of `WaitForSingleObject`: `WAIT_OBJECT_0`, `WAIT_TIMEOUT`, `WAIT_FAILED` or another.
  wait_result : ℕ → W → Result Bool ProcessError
  wait_result result w =
      if result == 0
      then ok true
      else if result == 258
      then ok false
      else if result == u32_max
      then err (io (api.last_os_error w))
      else err (io (other_error (codes "unexpected WaitForSingleObject result")))

  joined : Option Text → ℕ × W → Result Bool ProcessError × W
  unfolding wait_result
  joined none (result, w) = (wait_result result w, w)
  joined (some message) (result, w) = (err (io (other_error message)), w)

  waited : ℕ → Result H IoError × W → Result Bool ProcessError × W
  unfolding joined clamp_timeout
  waited timeout (err e, w) = (err (io e), w)
  waited timeout (ok handle, w) =
      joined (api.join_failure w) (api.wait_for_single_object handle (clamp_timeout timeout) w)

  unfoldable pub wait : H → ℕ → Action W ProcessError Bool
  unfolding waited
  wait handle timeout w = waited timeout (api.try_clone handle w)

  unfoldable pub windows_control : ProcessControl W H
  unfolding bind kill wait
  windows_control = record {
    bind = bind;
    kill = kill;
    terminate = kill;
    wait = wait;
    check_permissions = λ handle w. (ok tt, w);
  }
