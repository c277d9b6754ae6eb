-- ===== src/Sys/Linux.antt =====
-- sys/src/sys/linux.rs: processes held by a pidfd. Times are milliseconds.
pub mod Truthful
use knot_ops.Prelude.{ℕ, zero, suc, ◌%◌, ◌==◌, Bool, true, false, Option, none, some, if◌then◌else◌}
use knot_ops.Sys.Errors.{
  ErrorKind, not_found, permission_denied, already_exists, addr_in_use, invalid_input, would_block,
  other, IoError, ProcessError, not_running, io, Result, ok, err, Action, ◌>>=◌,
}
use knot_ops.Sys.Process.{ProcessMetadata, ProcessControl}

-- The system calls, and what tokio does with a descriptor; `F` is a pidfd.
pub record Kernel (W F : Type 0) : Type 0 where
  pub pidfd_open : ℕ → Action W IoError F
  -- `AsyncFd::new`
  pub register : F → Action W IoError F
  pub pidfd_send_signal : F → ℕ → Action W IoError (Unit {0})
  -- `poll(2)` without waiting: `none` if it returns 0, else the returned events
  pub poll : F → Action W IoError (Option ℕ)
  -- how often the descriptor is reported ready before a timer of this many milliseconds ends
  pub wakeups : F → ℕ → W → ℕ
  pub readable : F → Action W IoError (Unit {0})
  -- the end of the timer
  pub elapse : ℕ → W → W

abbrev is_esrch : Option ℕ → Bool
is_esrch none = false
is_esrch (some code) = code == 3

unfoldable pub map_signal_error : IoError → ProcessError
map_signal_error e = if is_esrch e.raw_os_error then not_running else io e

abbrev pub is_would_block : ErrorKind → Bool
is_would_block would_block = true
is_would_block not_found = false
is_would_block permission_denied = false
is_would_block already_exists = false
is_would_block addr_in_use = false
is_would_block invalid_input = false
is_would_block other = false

-- `POLLIN` among the events.
abbrev has_pollin : Option ℕ → Bool
has_pollin none = false
has_pollin (some revents) = revents % 2 == 1

module _ {W F : Type 0} (k : Kernel W F) where
  mapped : {A : Type 0} → Result A IoError × W → Result A ProcessError × W
  unfolding map_signal_error
  mapped (ok a, w) = (ok a, w)
  mapped (err e, w) = (err (map_signal_error e), w)

  unfoldable pub send_signal : F → ℕ → Action W ProcessError (Unit {0})
  unfolding mapped
  send_signal fd signal w = mapped (k.pidfd_send_signal fd signal w)

  poll_result : Result (Option ℕ) IoError × W → Result Bool IoError × W
  poll_result (ok events, w) = (ok (has_pollin events), w)
  poll_result (err e, w) = (err e, w)

  unfoldable pub poll_readable_now : F → Action W IoError Bool
  unfolding poll_result
  poll_readable_now fd w = poll_result (k.poll fd w)

  -- The `?` on `ProcessRef::new` keeps the error as it is.
  registered : Result F IoError × W → Result F ProcessError × W
  registered (ok fd, w) = (ok fd, w)
  registered (err e, w) = (err (io e), w)

  unfoldable pub bind : ProcessMetadata → Action W ProcessError F
  unfolding mapped registered
  bind metadata =
      (λ w. mapped (k.pidfd_open metadata.pid w)) >>= λ fd w. registered (k.register fd w)

  -- A look at a descriptor that was reported ready; `again` is the rest of the loop.
  after_poll :
      (W → Result Bool ProcessError × W) → Result Bool IoError × W → Result Bool ProcessError × W
  unfolding map_signal_error
  after_poll again (ok true, w) = (ok true, w)
  after_poll again (ok false, w) = again w
  after_poll again (err e, w) =
      if is_would_block e.kind then again w else (err (map_signal_error e), w)

  after_wakeup :
      (W → Result Bool ProcessError × W)
      → F
      → Result (Unit {0}) IoError × W
      → Result Bool ProcessError × W
  unfolding after_poll poll_readable_now map_signal_error
  after_wakeup again fd (ok u, w) = after_poll again (poll_readable_now fd w)
  after_wakeup again fd (err e, w) = (err (map_signal_error e), w)

  -- The loop of `wait`, for the wake-ups that are left before the timer ends.
  wait_for_exit : ℕ → ℕ → F → Action W ProcessError Bool
  unfolding after_wakeup
  wait_for_exit zero timeout fd w = (ok false, k.elapse timeout w)
  wait_for_exit (suc left) timeout fd w =
      after_wakeup (wait_for_exit left timeout fd) fd (k.readable fd w)

  unfoldable pub wait : F → ℕ → Action W ProcessError Bool
  unfolding wait_for_exit mapped
  wait fd timeout w =
      if timeout == 0
      then mapped (poll_readable_now fd w)
      else wait_for_exit (k.wakeups fd timeout w) timeout fd w

  unfoldable pub linux_control : ProcessControl W F
  unfolding bind send_signal wait
  linux_control = record {
    bind = bind;
    kill = λ fd. send_signal fd 9;
    terminate = λ fd. send_signal fd 15;
    wait = wait;
    check_permissions = λ fd. send_signal fd 0;
  }
