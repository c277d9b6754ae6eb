-- ===== src/Facade/Scenarios.antt =====
-- A daemon that obeys, and what the theorems about components/sdk/facade say of it.
mod Connecting
mod Sessions
use knot_ops.Prelude.{ℕ, true, false, codes, ◌≡◌, refl}
use knot_ops.Sys.Errors.{err, ok, pure, raise, reused}
use knot_ops.Sys.Process.{ProcessControl, kill, terminate}
use knot_ops.Sys.Linux.{linux_control, send_signal, poll_readable_now, wait}
use knot_ops.Sys.Linux.Truthful.{linux_control-IsTruthful}
use knot_ops.Sys.Sample.{Gone, kernel, kernel-IsPidfd}
use knot_ops.Facade.Kill.Gone.{kill_daemon-Gone}
use knot_ops.Facade.Policies.{PolicyConfig, default_policy, default_timeout, default_kill}
use knot_ops.Facade.Errors.{not_responding}
use knot_ops.Facade.Kill.{KillHandle, graceful, forced, stale, try_terminate, kill_daemon}
use knot_ops.Facade.Kill.Ending.{WasEnded, kill_daemon-WasEnded}

abbrev control : ProcessControl ℕ ℕ
control = record {
  bind = λ m. pure m.pid;
  kill = λ handle. pure tt;
  terminate = λ handle. pure tt;
  wait = λ handle timeout. pure true;
  check_permissions = λ handle. pure tt;
}

abbrev handle_with : PolicyConfig → KillHandle ℕ
handle_with policy = record {
  runtime_dir = codes ".knot";
  process = record {
    handle = 7;
    metadata = record { pid = 7; name = codes "knotd"; start_time = 5 };
  };
  daemon_path = codes "knotd";
  policy = policy;
}

ends :
    kill_daemon control (handle_with default_policy) 0
    ≡ (ok (stale (handle_with default_policy)), 0)
unfolding kill_daemon try_terminate graceful terminate default_policy default_kill
ends = refl

kill_daemon-WasEnded_example :
    (stale (handle_with default_policy) ≡ stale (handle_with default_policy))
    × WasEnded control (handle_with default_policy) 0 0
kill_daemon-WasEnded_example =
    kill_daemon-WasEnded control (handle_with default_policy) 0 (stale (handle_with default_policy))
      0 ends

abbrev at_once : PolicyConfig
at_once = record default_policy { kill = record { graceful_timeout = 0; force_timeout = 100 } }

abbrev on_linux : KillHandle ℕ
on_linux = handle_with at_once

-- The process obeys the forceful signal at once.
ends_on_linux : kill_daemon (linux_control kernel) on_linux 1 ≡ (ok (stale on_linux), 0)
unfolding kill_daemon try_terminate forced kill linux_control send_signal wait poll_readable_now
    default_policy
ends_on_linux = refl

kill_daemon-Gone_example : Gone 7 0
kill_daemon-Gone_example =
    kill_daemon-Gone (linux_control kernel) Gone
      (linux_control-IsTruthful kernel Gone kernel-IsPidfd) on_linux 1 (stale on_linux) 0
      ends_on_linux
