-- ===== src/Sys/Macos/Truthful.antt =====
-- The macOS handle as an implementation of sys/src/traits.rs, on a machine whose clock lets `wait` end.
use knot_ops.Prelude.{
  ℕ, zero, suc, leb, Bool, true, false, Option, none, some, some-eq-some, ◌≡◌, ◌≢◌, refl, ap, sym,
  ◌∙◌, inl, inr, arith, Bool-cases, if_true, if_false, ◌+◌,
}
use knot_ops.Sys.Errors.{
  is_not_found, IoError, ProcessError, not_running, Result, ok, err, Action, pure, after-eq-err,
  err-eq-err, ok-ne-err,
}
use knot_ops.Sys.Process.{ProcessMetadata, ProcessControl}
use knot_ops.Sys.Process.Truthful.{IsTruthful}
use knot_ops.Sys.Macos.{
  Machine, is_esrch, map_signal_error, not_reused, still_there, ensure_pid_not_reused,
  check_identity, mapped, signal, joined, looked, after_look, wait_loop, wait,
}
use knot_ops.Sys.Macos.Waiting.{IsClock, wait_returns, wait-Grounds}

-- What `wait` answers, with the fuel that is enough.
unfoldable pub wait_result :
    {W : Type 0} (m : Machine W) → IsClock m → ProcessMetadata → ℕ → Action W ProcessError Bool
wait_result m clock fingerprint timeout w =
    (wait_returns m fingerprint (suc timeout) timeout w clock (omega arith)).0

-- The handle is the fingerprint; `bind` keeps the metadata.
unfoldable pub macos_control :
    {W : Type 0} (m : Machine W) → IsClock m → ProcessControl W ProcessMetadata
unfolding wait_result
macos_control m clock = record {
  bind = λ metadata. pure metadata;
  kill = signal m 9;
  terminate = signal m 15;
  wait = wait_result m clock;
  check_permissions = signal m 0;
}

-- What the machine promises: a process id that is not found, and ESRCH for a signal, are for a process
-- that has ended.
pub record IsObservant {W : Type 0} (m : Machine W) (Gone : ProcessMetadata → W → Type 0)
    : Type 0 where
  pub absent :
      (fingerprint : ProcessMetadata) (w : W) {e : IoError} {w' : W}
      → m.extract fingerprint.pid w ≡ (err e, w')
      → is_not_found e.kind ≡ true
      → Gone fingerprint w'
  pub esrch :
      (fingerprint : ProcessMetadata) (number : ℕ) (w : W) {e : IoError} {w' : W}
      → m.send_signal fingerprint.pid number w ≡ (err e, w')
      → is_esrch e.raw_os_error ≡ true
      → Gone fingerprint w'

mapped-eq-missing :
    (e : IoError) → map_signal_error e ≡ not_running → is_esrch e.raw_os_error ≡ true
unfolding map_signal_error
mapped-eq-missing e h = ground (arith, h)

not_reused-missing :
    (fingerprint : ProcessMetadata) (x : Result ProcessMetadata IoError)
    → not_reused fingerprint x ≡ err not_running
    → (e : IoError) × (x ≡ err e) × (is_not_found e.kind ≡ true)
unfolding not_reused
not_reused-missing fingerprint (ok metadata) h = absurd (ground arith)
not_reused-missing fingerprint (err e) h = (e, refl, ground arith)

still_there_known :
    (fingerprint : ProcessMetadata) (x : Result ProcessMetadata IoError)
    → still_there fingerprint x ≢ err not_running
unfolding still_there
still_there_known fingerprint (ok metadata) h = ground arith
still_there_known fingerprint (err e) h = ground arith

module _ {W : Type 0} (m : Machine W) (Gone : ProcessMetadata → W → Type 0)
    (v : IsObservant m Gone) where
  mapped-Gone :
      (fingerprint : ProcessMetadata) (number : ℕ) (w : W) (x : Result (Unit {0}) IoError × W)
      {w' : W}
      → m.send_signal fingerprint.pid number w ≡ x
      → mapped m x ≡ (err not_running, w')
      → Gone fingerprint w'
  unfolding mapped
  mapped-Gone fingerprint number w (ok u, w1) sent h = absurd (ok-ne-err h)
  mapped-Gone fingerprint number w (err e, w1) sent h =
      let (missing, same) = err-eq-err h in
      v.esrch fingerprint number w (sent ∙ ap (λ q. (err e, q)) same) (mapped-eq-missing e missing)

  signal-Gone :
      (number : ℕ) (fingerprint : ProcessMetadata) (w : W) {w' : W}
      → signal m number fingerprint w ≡ (err not_running, w')
      → Gone fingerprint w'
  unfolding signal ensure_pid_not_reused
  signal-Gone number fingerprint w h =
      let send : Action W ProcessError (Unit {0}) =
        λ w1. mapped m (m.send_signal fingerprint.pid number w1) in
      elim (after-eq-err (ensure_pid_not_reused m fingerprint w) (λ _. send) h) [
        | inl refused ↦
            let (e, failed, missing) =
              not_reused-missing fingerprint (m.extract fingerprint.pid w).0
                (ap (λ q. q.0) refused) in
            v.absent fingerprint w
              (ap (λ r. (r, (m.extract fingerprint.pid w).1)) failed
                ∙ ap (λ q. (err e, q.1)) refused)
              missing
        | inr (u, w1, _, fails) ↦
            mapped-Gone fingerprint number w1 (m.send_signal fingerprint.pid number w1) refl fails
      ]

module _ {W : Type 0} (m : Machine W) (fingerprint : ProcessMetadata) where
  joined_known :
      (lost : Option IoError) (x : Result Bool ProcessError × W) {w' : W}
      → x.0 ≢ err not_running
      → joined m lost x ≢ (err not_running, w')
  unfolding joined
  joined_known none x known h = known (ap (λ q. q.0) h)
  joined_known (some e) x known h = ground arith

  looked_known : (w : W) {w' : W} → looked m fingerprint w ≢ (err not_running, w')
  unfolding looked check_identity
  looked_known w =
      joined_known (m.join_failure w) (check_identity m fingerprint w)
        (still_there_known fingerprint (m.extract fingerprint.pid w).0)

  after_look_known :
      (again : W → Option (Result Bool ProcessError × W)) (deadline : ℕ)
      (x : Result Bool ProcessError × W) {w' : W}
      → ((w2 : W) → x ≢ (err not_running, w2))
      → ((w1 w2 : W) → again w1 ≢ some (err not_running, w2))
      → after_look m again deadline x ≢ some (err not_running, w')
  unfolding after_look
  after_look_known again deadline (err e, w) known next h = known _ (some-eq-some h)
  after_look_known again deadline (ok false, w) known next h = ok-ne-err (some-eq-some h)
  after_look_known again deadline (ok true, w) known next h =
      elim (Bool-cases (leb deadline (m.now w))) [
        | inl late ↦ ok-ne-err (some-eq-some (sym (if_true _ _ late) ∙ h))
        | inr early ↦ next _ _ (sym (if_false _ _ early) ∙ h)
      ]

  wait_loop_known :
      (fuel deadline : ℕ) (w : W) {w' : W}
      → wait_loop m fuel deadline fingerprint w ≢ some (err not_running, w')
  unfolding wait_loop
  wait_loop_known zero deadline w h = cc
  wait_loop_known (suc fuel) deadline w h =
      after_look_known (wait_loop m fuel deadline fingerprint) deadline (looked m fingerprint w)
        (λ w2. looked_known w) (λ w1 w2. wait_loop_known fuel deadline w1) h

  module _ (clock : IsClock m) where
    wait_result_returned :
        (timeout : ℕ) (w : W)
        → wait m (suc timeout) fingerprint timeout w
          ≡ some (wait_result m clock fingerprint timeout w)
    unfolding wait_result
    wait_result_returned timeout w =
        (wait_returns m fingerprint (suc timeout) timeout w clock (omega arith)).1

    wait_result_known :
        (timeout : ℕ) (w : W) {w' : W}
        → wait_result m clock fingerprint timeout w ≢ (err not_running, w')
    unfolding wait
    wait_result_known timeout w h =
        wait_loop_known (suc timeout) (m.now w + timeout) w
          (wait_result_returned timeout w ∙ ap (λ r. some r) h)

-- With a clock as for the termination of wait, and if the machine keeps the promises of
-- IsObservant, the macOS handle does what the trait ProcessControl promises about the end of the
-- process: an operation that answers that the process is not running, and a wait that answers
-- true, leave the system in a state in which it has ended.
pub macos_control-IsTruthful :
    {W : Type 0} (m : Machine W) (clock : IsClock m) (Gone : ProcessMetadata → W → Type 0)
    (v : IsObservant m Gone)
    → IsTruthful (macos_control m clock) Gone
unfolding macos_control
macos_control-IsTruthful m clock Gone v = record {
  check_missing = λ fingerprint w h. signal-Gone m Gone v 0 fingerprint w h;
  kill_missing = λ fingerprint w h. signal-Gone m Gone v 9 fingerprint w h;
  terminate_missing = λ fingerprint w h. signal-Gone m Gone v 15 fingerprint w h;
  wait_missing = λ fingerprint n w h. absurd (wait_result_known m fingerprint clock n w h);
  wait_ended = λ fingerprint n w h.
      let grounds =
        wait-Grounds m fingerprint (suc n) n w (wait_result m clock fingerprint n w)
          (wait_result_returned m fingerprint clock n w) in
      let (w1, e, failed, missing) = grounds.0 _ h in v.absent fingerprint w1 failed missing;
}
