-- ===== src/Facade/Kill.antt =====
-- sdk/facade/src/handles/kill.rs: how the daemon is made to end. Times are
-- milliseconds.
pub mod Ending
pub mod Gone
use knot_ops.Prelude.{ℕ, Bool, true, false, Text, ◌==◌, if◌then◌else◌}
use knot_ops.Sys.Errors.{ProcessError, not_running, mismatch, reused, io, Result, ok, err, Action}
use knot_ops.Facade.Policies.{PolicyConfig}
use knot_ops.Facade.Errors.{SignalError, process_error, not_responding}
use knot_ops.Facade.Stale.{StaleHandle}
use knot_ops.Sys.Process.{ProcessControl, PlatformProcess, kill, terminate}

pub record KillHandle (T : Type 0) : Type 0 where
  pub runtime_dir : Text
  pub process : PlatformProcess T
  pub daemon_path : Text
  pub policy : PolicyConfig

-- What the answer to `terminate` means: whether the process is terminated, or an error.
unfoldable pub graceful : {W : Type 0} → Result Bool ProcessError × W → Result Bool SignalError × W
graceful (ok sent, w) = (ok sent, w)
graceful (err not_running, w) = (ok true, w)
graceful (err (mismatch expected actual), w) = (err (process_error (mismatch expected actual)), w)
graceful (err (io e), w) = (err (process_error (io e)), w)
graceful (err reused, w) = (err (process_error reused), w)

-- What the answer to `kill` means.
unfoldable pub forced :
    {W : Type 0} → Result Bool ProcessError × W → Result (Unit {0}) SignalError × W
forced (ok true, w) = (ok tt, w)
forced (ok false, w) = (err not_responding, w)
forced (err not_running, w) = (ok tt, w)
forced (err (mismatch expected actual), w) = (err (process_error (mismatch expected actual)), w)
forced (err (io e), w) = (err (process_error (io e)), w)
forced (err reused, w) = (err (process_error reused), w)

unfoldable pub stale : {T : Type 0} → KillHandle T → StaleHandle
stale h = record { runtime_dir = h.runtime_dir; daemon_path = h.daemon_path; policy = h.policy }

module _ {W T : Type 0} (control : ProcessControl W T) where
  -- The graceful part, left out for a timeout of zero.
  unfoldable pub try_terminate : KillHandle T → W → Result Bool SignalError × W
  unfolding graceful
  try_terminate h w =
      if h.policy.kill.graceful_timeout == 0
      then (ok false, w)
      else graceful (terminate control h.process h.policy.kill.graceful_timeout w)

  transition : KillHandle T → Result (Unit {0}) SignalError × W → Result StaleHandle SignalError × W
  unfolding stale
  transition h (ok u, w) = (ok (stale h), w)
  transition h (err e, w) = (err e, w)

  -- From the result of the graceful part on.
  after_terminate : KillHandle T → Result Bool SignalError × W → Result StaleHandle SignalError × W
  unfolding transition forced
  after_terminate h (err e, w) = (err e, w)
  after_terminate h (ok true, w) = (ok (stale h), w)
  after_terminate h (ok false, w) =
      transition h (forced (kill control h.process h.policy.kill.force_timeout w))

  unfoldable pub kill_daemon : KillHandle T → Action W SignalError StaleHandle
  unfolding after_terminate try_terminate
  kill_daemon h w = after_terminate h (try_terminate h w)
