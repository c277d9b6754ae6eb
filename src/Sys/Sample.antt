-- ===== src/Sys/Sample.antt =====
-- A kernel with one process, for the tests.
use knot_ops.Prelude.{ℕ, ◌-◌, ◌==◌, some, none, codes, ◌≡◌, arith, if◌then◌else◌}
use knot_ops.Sys.Errors.{other, IoError, ok, err, ok-ne-err}
use knot_ops.Sys.Linux.{Kernel}
use knot_ops.Sys.Linux.Truthful.{IsPidfd}

-- The world is the life of the one process; each signal and each wake-up costs a unit of it.
abbrev pub Gone : ℕ → ℕ → Type 0
Gone handle w = w ≡ 0

abbrev esrch : IoError
esrch = record { kind = other; raw_os_error = some 3; message = codes "no such process" }

abbrev pub kernel : Kernel ℕ ℕ
kernel = record {
  pidfd_open = λ pid w. (ok pid, w);
  register = λ fd w. (ok fd, w);
  pidfd_send_signal = λ fd number w. if w == 0 then (err esrch, w) else (ok tt, w - 1);
  poll = λ fd w. (ok (if w == 0 then some 1 else none), w);
  wakeups = λ fd timeout w. 3;
  readable = λ fd w. (ok tt, w - 1);
  elapse = λ timeout w. w;
}

pub kernel-IsPidfd : IsPidfd kernel Gone
kernel-IsPidfd = record {
  esrch = λ fd number w sent missing. ground (arith, sent);
  pollin = λ fd w polled there. ground (arith, polled, there);
  poll_error = λ fd w failed. absurd (ok-ne-err failed);
  readable_error = λ fd w failed. absurd (ok-ne-err failed);
}
