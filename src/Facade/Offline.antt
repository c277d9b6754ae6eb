-- ===== src/Facade/Offline.antt =====
-- sdk/facade/src/handles/offline.rs: the daemon is spawned, and its socket is tried until it answers.
pub mod Launch
pub mod Total
use knot_ops.Prelude.{ℕ, zero, suc, Text, codes, Option, none, some}
use knot_ops.Core.Consts.{knot_socket_file}
use knot_ops.Sys.Errors.{ProcessError, display, Result, ok, err, Action}
use knot_ops.Sys.Process.{Host, ProcessControl, PlatformProcess, spawn, kill}
use knot_ops.Facade.Errors.{ClientError, daemon, launch_failed}
use knot_ops.Facade.Stale.{Files, OfflineHandle, socket_path}
use knot_ops.Facade.Session.{ConnectedHandle}
use knot_ops.Facade.Dial.{Dialer, dial}

module _ {W T N A : Type 0} (host : Host W) (control : ProcessControl W T) (fs : Files W)
    (dialer : Dialer W N A) where
  -- What is reported when the socket never answered; the answer to the kill is dropped.
  give_up : OfflineHandle → PlatformProcess T → Action W ClientError ConnectedHandle
  give_up h process w = (
    err (
        daemon (
          launch_failed (codes "daemon process was spawned, but IPC socket never appeared")
            h.daemon_path (codes "socket not found"))),
    (kill control process h.policy.kill.graceful_timeout w).1,
  )

  -- The loop; `more` is the number of tries behind the next one, `retries - 1` of the source.
  wait_for_socket : ℕ → OfflineHandle → PlatformProcess T → Action W ClientError ConnectedHandle
  unfolding give_up
  wait_for_socket zero h process w =
      elim (dial dialer (socket_path fs h.runtime_dir) h.policy w).0 [
        | ok handle ↦ (ok handle, (dial dialer (socket_path fs h.runtime_dir) h.policy w).1)
        | err e ↦ give_up h process (dial dialer (socket_path fs h.runtime_dir) h.policy w).1
      ]
  wait_for_socket (suc more) h process w =
      elim (dial dialer (socket_path fs h.runtime_dir) h.policy w).0 [
        | ok handle ↦ (ok handle, (dial dialer (socket_path fs h.runtime_dir) h.policy w).1)
        | err e ↦
            wait_for_socket more h process
              (host.sleep 50 (dial dialer (socket_path fs h.runtime_dir) h.policy w).1)
      ]

  spawned :
      OfflineHandle
      → Result (PlatformProcess T) ProcessError × W
      → Result ConnectedHandle ClientError × W
  unfolding wait_for_socket
  spawned h (ok process, w) = wait_for_socket 39 h process w
  spawned h (err e, w) = (
    err (
        daemon (launch_failed (codes "failed to execute daemon binary") h.daemon_path (display e))),
    w,
  )

  -- `none` is a panic of `Process::spawn`.
  launch_of :
      OfflineHandle
      → Option (Result (PlatformProcess T) ProcessError × W)
      → Option (Result ConnectedHandle ClientError × W)
  unfolding spawned
  launch_of h none = none
  launch_of h (some answer) = some (spawned h answer)

  unfoldable pub launch : OfflineHandle → W → Option (Result ConnectedHandle ClientError × W)
  unfolding launch_of
  launch h w = launch_of h (spawn host control h.daemon_path w)
