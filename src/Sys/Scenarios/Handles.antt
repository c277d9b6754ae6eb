-- ===== src/Sys/Scenarios/Handles.antt =====
-- A process with some life left on each platform, and what the theorems about its handle say.
use knot_ops.Prelude.{
  ◌≤◌, ℕ, ◌+◌, ◌^◌, ◌==◌, ltb, true, false, Bool, some, none, codes, ◌≡◌, ◌≢◌, refl, ◌⊎◌, arith,
  if◌then◌else◌, text_eq,
}
use knot_ops.Sys.Errors.{
  ok-ne-err, not_found, IoError, ProcessError, Result, ok, err, Action, other_error,
}
use knot_ops.Sys.Process.{ProcessMetadata, metadata_eq}
use knot_ops.Sys.Process.Truthful.{IsTruthful}
use knot_ops.Sys.Sample.{Gone, kernel, kernel-IsPidfd}
use knot_ops.Sys.Linux.{linux_control}
use knot_ops.Sys.Linux.Truthful.{linux_control-IsTruthful}
use knot_ops.Sys.Windows.{Api, u32_max, windows_control}
use knot_ops.Sys.Windows
use knot_ops.Sys.Windows.Truthful.{IsWaitable, windows_control-IsTruthful, wait_endless}
use knot_ops.Sys.Macos.{Machine, signal, wait, looked, check_identity, still_there}
use knot_ops.Sys.Macos.Truthful.{IsObservant, macos_control, macos_control-IsTruthful}
use knot_ops.Sys.Macos.Fingerprint.{signal_guarded}
use knot_ops.Sys.Macos.Waiting.{IsClock, wait_returns, Grounds, wait-Grounds}

linux_control-IsTruthful_example : IsTruthful (linux_control kernel) Gone
linux_control-IsTruthful_example = linux_control-IsTruthful kernel Gone kernel-IsPidfd

-- The world is the life of the process.
abbrev api : Api ℕ ℕ
api = record {
  open_process = λ access pid w. (ok pid, w);
  terminate_process = λ handle code w. (ok tt, 0);
  exit_code_process = λ handle w. (ok 259, w);
  try_clone = λ handle w. (ok handle, w);
  wait_for_single_object = λ handle timeout w.
      if timeout == u32_max then (0, 0) else if w == 0 then (0, 0) else (258, w);
  last_os_error = λ w. other_error (codes "none");
  join_failure = λ w. none;
}

api-IsWaitable : IsWaitable api Gone
api-IsWaitable = record {
  signalled = λ handle copy timeout w w1 w2 cloned ended. ground (arith, ended);
  infinite = λ handle w w' late. ground (arith, late);
}

windows_control-IsTruthful_example : IsTruthful (windows_control api) Gone
windows_control-IsTruthful_example = windows_control-IsTruthful api Gone api-IsWaitable

wait_endless_example : Windows.wait api 7 (2 ^ 32) 1 ≢ (ok false, 1)
wait_endless_example = wait_endless api Gone api-IsWaitable 7 (2 ^ 32) 1 1 (omega arith)

abbrev knotd : ProcessMetadata
knotd = record { pid = 7; name = codes "knotd"; start_time = 5 }

-- The world is the time, and the process lives for 250 milliseconds.
abbrev machine : Machine ℕ
machine = record {
  extract = λ pid w. if ltb w 250 then (ok knotd, w) else (
    err (record { kind = not_found; raw_os_error = none; message = codes "no process" }),
    w,
  );
  send_signal = λ pid number w. (ok tt, w);
  join_failure = λ w. none;
  now = λ w. w;
  sleep = λ n w. w + n;
}

machine-IsClock : IsClock machine
machine-IsClock = record { looking = λ pid w. ground arith; sleeping = λ n w. omega arith }

signal_guarded_example :
    (machine.extract 7 0 ≡ (ok knotd, 0))
    ⊎ ((e : ProcessError) × ((other : ℕ → ℕ → Action ℕ IoError (Unit {0}))
          → signal (record machine { send_signal = other }) 9 knotd 0 ≡ (err e, 0)))
signal_guarded_example = signal_guarded machine 9 knotd 0

wait_returns_example : (r : Result Bool ProcessError × ℕ) × (wait machine 301 knotd 300 0 ≡ some r)
wait_returns_example = wait_returns machine knotd 301 300 0 machine-IsClock (omega arith)

ends : wait machine 5 knotd 300 0 ≡ some (ok true, 300)
unfolding wait looked check_identity still_there metadata_eq text_eq
ends = refl

wait-Grounds_example : Grounds machine knotd 300 (ok true, 300)
wait-Grounds_example = wait-Grounds machine knotd 5 300 0 (ok true, 300) ends

-- The process has ended when its time is over.
abbrev Over : ProcessMetadata → ℕ → Type 0
Over fingerprint w = 250 ≤ w

machine-IsObservant : IsObservant machine Over
machine-IsObservant = record {
  absent = λ fingerprint w failed missing. ground (arith, failed);
  esrch = λ fingerprint number w failed missing. absurd (ok-ne-err failed);
}

macos_control-IsTruthful_example : IsTruthful (macos_control machine machine-IsClock) Over
macos_control-IsTruthful_example =
    macos_control-IsTruthful machine machine-IsClock Over machine-IsObservant
