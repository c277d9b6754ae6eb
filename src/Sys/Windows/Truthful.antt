-- ===== src/Sys/Windows/Truthful.antt =====
-- The waiting of the Windows handle: when it says that the process has ended, and when it cannot stop.
use knot_ops.Prelude.{
  ℕ, ◌≤◌, Bool, true, false, Text, Option, none, some, ◌≡◌, ◌≢◌, refl, ap, sym, subst, ◌∙◌, arith,
}
use knot_ops.Sys.Errors.{IoError, ProcessError, not_running, Result, ok, err, ok-ne-err}
use knot_ops.Sys.Process.Truthful.{IsTruthful}
use knot_ops.Sys.Windows.{
  Api, u32_max, clamp_timeout, is_process_exited, after_failure, terminated, kill, wait_result,
  joined, waited, wait, windows_control,
}

-- What the documentation of `WaitForSingleObject` promises: a result of 0 is for a process that has
-- ended, and a wait for `INFINITE` milliseconds does not time out.
pub record IsWaitable {W H : Type 0} (api : Api W H) (Gone : H → W → Type 0) : Type 0 where
  pub signalled :
      (handle copy : H) (timeout : ℕ) (w w1 w2 : W)
      → api.try_clone handle w ≡ (ok copy, w1)
      → api.wait_for_single_object copy timeout w1 ≡ (0, w2)
      → Gone handle w2
  pub infinite :
      (handle : H) (w w' : W) → api.wait_for_single_object handle u32_max w ≡ (258, w') → ⊥

module _ {W H : Type 0} (api : Api W H) where
  -- `kill` and `terminate` do not fail with `not_running`.
  after_failure_known :
      (e : IoError) (x : Result Bool IoError × W) {w' : W}
      → after_failure api e x ≡ (err not_running, w')
      → ⊥
  unfolding after_failure
  after_failure_known e (ok true, w) h = ok-ne-err h
  after_failure_known e (ok false, w) h = ground arith
  after_failure_known e (err i, w) h = ground arith

  terminated_known :
      (handle : H) (x : Result (Unit {0}) IoError × W) {w' : W}
      → terminated api handle x ≡ (err not_running, w')
      → ⊥
  unfolding terminated
  terminated_known handle (ok u, w) h = ok-ne-err h
  terminated_known handle (err e, w) h = after_failure_known e (is_process_exited api handle w) h

  kill_known : (handle : H) (w : W) {w' : W} → kill api handle w ≡ (err not_running, w') → ⊥
  unfolding kill
  kill_known handle w h = terminated_known handle (api.terminate_process handle 1 w) h

  wait_result_known : (n : ℕ) (w : W) → wait_result api n w ≡ err not_running → ⊥
  unfolding wait_result
  wait_result_known n w h = ground arith

  wait_result_ended : (n : ℕ) (w : W) → wait_result api n w ≡ ok true → n ≡ 0
  unfolding wait_result
  wait_result_ended n w h = ground arith

  wait_result_late : (n : ℕ) (w : W) → wait_result api n w ≡ ok false → n ≡ 258
  unfolding wait_result
  wait_result_late n w h = ground arith

  result_part :
      {r1 r2 : Result Bool ProcessError} {w w' : W}
      → ◌≡◌ {A = Result Bool ProcessError × W} (r1, w) (r2, w')
      → r1 ≡ r2
  result_part e = ap (λ q. q.0) e

  joined_known :
      (lost : Option Text) (x : ℕ × W) {w' : W} → joined api lost x ≡ (err not_running, w') → ⊥
  unfolding joined
  joined_known none (n, w) h = wait_result_known n w (result_part h)
  joined_known (some message) (n, w) h = ground arith

  -- A wait that gives a Boolean has got a result of the system call.
  joined_result :
      (lost : Option Text) (x : ℕ × W) (b : Bool) {w' : W}
      → joined api lost x ≡ (ok b, w')
      → (wait_result api x.0 x.1 ≡ ok b) × (x.1 ≡ w')
  unfolding joined
  joined_result none (n, w) b h = (result_part h, ap (λ q. q.1) h)
  joined_result (some message) (n, w) b h = absurd (ok-ne-err (sym h))

  module _ (Gone : H → W → Type 0) (v : IsWaitable api Gone) where
    waited_known :
        (timeout : ℕ) (x : Result H IoError × W) {w' : W}
        → waited api timeout x ≡ (err not_running, w')
        → ⊥
    unfolding waited
    waited_known timeout (ok copy, w1) h =
        joined_known (api.join_failure w1)
          (api.wait_for_single_object copy (clamp_timeout timeout) w1) h
    waited_known timeout (err e, w1) h = ground arith

    waited-Gone :
        (handle : H) (timeout : ℕ) (w : W) (x : Result H IoError × W) {w' : W}
        → api.try_clone handle w ≡ x
        → waited api timeout x ≡ (ok true, w')
        → Gone handle w'
    unfolding waited
    waited-Gone handle timeout w (ok copy, w1) cloned h =
        let x = api.wait_for_single_object copy (clamp_timeout timeout) w1 in
        let (ended, same) = joined_result (api.join_failure w1) x true h in
        subst (Gone handle) same (
          v.signalled handle copy (clamp_timeout timeout) w w1 x.1 cloned
            (ap (λ n. (n, x.1)) (wait_result_ended x.0 x.1 ended)))
    waited-Gone handle timeout w (err e, w1) cloned h = absurd (ok-ne-err (sym h))

    -- If WaitForSingleObject keeps the promises of IsWaitable, the Windows handle does what the
    -- trait ProcessControl promises about the end of the process: an operation that answers that
    -- the process is not running, and a wait that answers true, leave the system in a state in
    -- which it has ended.
    pub windows_control-IsTruthful : IsTruthful (windows_control api) Gone
    unfolding windows_control wait
    windows_control-IsTruthful = record {
      check_missing = λ handle w h. absurd (ok-ne-err h);
      kill_missing = λ handle w h. absurd (kill_known handle w h);
      terminate_missing = λ handle w h. absurd (kill_known handle w h);
      wait_missing = λ handle n w h. absurd (waited_known n (api.try_clone handle w) h);
      wait_ended = λ handle n w h. waited-Gone handle n w (api.try_clone handle w) refl h;
    }

    clamped : (timeout : ℕ) → u32_max ≤ timeout → clamp_timeout timeout ≡ u32_max
    unfolding clamp_timeout
    clamped timeout long = ground arith

    waited_late :
        (timeout : ℕ) (x : Result H IoError × W) {w' : W}
        → clamp_timeout timeout ≡ u32_max
        → waited api timeout x ≡ (ok false, w')
        → ⊥
    unfolding waited
    waited_late timeout (ok copy, w1) {w'} infinite h =
        let x = api.wait_for_single_object copy (clamp_timeout timeout) w1 in
        let (late, same) = joined_result (api.join_failure w1) x false h in
        v.infinite copy w1 x.1 (
          ap (λ n. api.wait_for_single_object copy n w1) (sym infinite)
          ∙ ap (λ n. (n, x.1)) (wait_result_late x.0 x.1 late))
    waited_late timeout (err e, w1) infinite h = ok-ne-err (sym h)

    -- If WaitForSingleObject keeps the promises of IsWaitable, wait of the Windows handle with a
    -- timeout of 2 ^ 32 - 1 milliseconds or more never answers that the timeout has passed.
    pub wait_endless :
        (handle : H) (timeout : ℕ) (w w' : W)
        → u32_max ≤ timeout
        → wait api handle timeout w ≢ (ok false, w')
    unfolding wait
    wait_endless handle timeout w w' long h =
        waited_late timeout (api.try_clone handle w) (clamped timeout long) h
