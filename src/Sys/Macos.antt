-- ===== src/Sys/Macos.antt =====
-- sys/src/sys/macos.rs: processes held by their metadata, the fingerprint. Times are milliseconds.
pub mod Fingerprint
pub mod Waiting
pub mod Truthful
use knot_ops.Prelude.{
  ℕ, zero, suc, ◌+◌, ◌-◌, ◌==◌, leb, ltb, Bool, true, false, not, Option, none, some, if◌then◌else◌,
}
use knot_ops.Sys.Errors.{
  ErrorKind, not_found, permission_denied, already_exists, addr_in_use, invalid_input, would_block,
  other, IoError, other_error, ProcessError, not_running, reused, io, Result, ok, err, Action, ◌>>◌,
  is_not_found,
}
use knot_ops.Sys.Process.{ProcessMetadata, ProcessControl, metadata_eq}

-- What the handle uses: `ProcessMetadata::extract`, `kill(2)`, and tokio's clock and blocking tasks.
pub record Machine (W : Type 0) : Type 0 where
  pub extract : ℕ → Action W IoError ProcessMetadata
  pub send_signal : ℕ → ℕ → Action W IoError (Unit {0})
  -- the error of a blocking task that was lost
  pub join_failure : W → Option IoError
  pub now : W → ℕ
  pub sleep : ℕ → W → W

abbrev pub is_esrch : Option ℕ → Bool
is_esrch none = false
is_esrch (some code) = code == 3

unfoldable pub map_signal_error : IoError → ProcessError
map_signal_error e = if is_esrch e.raw_os_error then not_running else io e

-- The readings of a lookup of the fingerprint's process id.
unfoldable pub not_reused :
    ProcessMetadata → Result ProcessMetadata IoError → Result (Unit {0}) ProcessError
not_reused fingerprint (ok metadata) =
    if metadata_eq metadata fingerprint then ok tt else err reused
not_reused fingerprint (err e) = if is_not_found e.kind then err not_running else err (io e)

unfoldable pub still_there :
    ProcessMetadata → Result ProcessMetadata IoError → Result Bool ProcessError
still_there fingerprint (ok metadata) =
    if metadata_eq metadata fingerprint then ok true else err reused
still_there fingerprint (err e) = if is_not_found e.kind then ok false else err (io e)

-- `remaining.min(100)`
abbrev pub pause : ℕ → ℕ
pause remaining = if leb remaining 100 then remaining else 100

module _ {W : Type 0} (m : Machine W) where
  unfoldable pub ensure_pid_not_reused : ProcessMetadata → Action W ProcessError (Unit {0})
  unfolding not_reused
  ensure_pid_not_reused fingerprint w =
      let (r, w1) = m.extract fingerprint.pid w in (not_reused fingerprint r, w1)

  unfoldable pub check_identity : ProcessMetadata → Action W ProcessError Bool
  unfolding still_there
  check_identity fingerprint w =
      let (r, w1) = m.extract fingerprint.pid w in (still_there fingerprint r, w1)

  unfoldable pub mapped : Result (Unit {0}) IoError × W → Result (Unit {0}) ProcessError × W
  unfolding map_signal_error
  mapped (ok u, w) = (ok u, w)
  mapped (err e, w) = (err (map_signal_error e), w)

  -- `kill`, `terminate` and `check_permissions`, which differ in the signal: 9, 15 and 0.
  unfoldable pub signal : ℕ → ProcessMetadata → Action W ProcessError (Unit {0})
  unfolding ensure_pid_not_reused mapped
  signal number fingerprint =
      ensure_pid_not_reused fingerprint >> λ w. mapped (m.send_signal fingerprint.pid number w)

  -- A lost blocking task hides its answer.
  joined : Option IoError → Result Bool ProcessError × W → Result Bool ProcessError × W
  joined none x = x
  joined (some e) (r, w) = (err (io e), w)

  unfoldable pub looked : ProcessMetadata → Action W ProcessError Bool
  unfolding joined check_identity
  looked fingerprint w = joined (m.join_failure w) (check_identity fingerprint w)

  -- After a look: the deadline, a pause, and the rest of the loop. `none` is a loop that has not ended.
  after_look :
      (W → Option (Result Bool ProcessError × W))
      → ℕ
      → Result Bool ProcessError × W
      → Option (Result Bool ProcessError × W)
  after_look again deadline (err e, w) = some (err e, w)
  after_look again deadline (ok false, w) = some (ok true, w)
  after_look again deadline (ok true, w) =
      let rest = again (m.sleep (pause (deadline - m.now w)) w) in
      if leb deadline (m.now w) then some (ok false, w) else rest

  unfoldable pub wait_loop : ℕ → ℕ → ProcessMetadata → W → Option (Result Bool ProcessError × W)
  unfolding after_look looked
  wait_loop zero deadline fingerprint w = none
  wait_loop (suc fuel) deadline fingerprint w =
      after_look (wait_loop fuel deadline fingerprint) deadline (looked fingerprint w)

  unfoldable pub wait : ℕ → ProcessMetadata → ℕ → W → Option (Result Bool ProcessError × W)
  unfolding wait_loop
  wait fuel fingerprint timeout w = wait_loop fuel (m.now w + timeout) fingerprint w
