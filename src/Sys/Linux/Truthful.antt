-- ===== src/Sys/Linux/Truthful.antt =====
-- The Linux handle keeps the promises of sys/src/traits.rs.
use knot_ops.Prelude.{
  ℕ, zero, suc, ◌==◌, Bool, true, false, Option, ◌≡◌, refl, subst, sym, ap, ◌∙◌, ◌⊎◌, inl, inr,
  arith, Bool-cases, if_true, if_false,
}
use knot_ops.Sys.Errors.{
  IoError, ProcessError, not_running, Result, ok, err, ok-eq-ok, err-eq-err, ok-ne-err,
}
use knot_ops.Sys.Process.Truthful.{IsTruthful}
use knot_ops.Sys.Linux.{
  Kernel, is_esrch, map_signal_error, has_pollin, mapped, send_signal, poll_result,
  poll_readable_now, is_would_block, after_poll, after_wakeup, wait_for_exit, wait, linux_control,
}

-- What the kernel promises: ESRCH, which is 3, is for a process that has ended, as is a pidfd that can
-- be read; and looking at a pidfd does not fail with ESRCH.
pub record IsPidfd {W F : Type 0} (k : Kernel W F) (Gone : F → W → Type 0) : Type 0 where
  pub esrch :
      (fd : F) (signal : ℕ) (w : W) {e : IoError} {w' : W}
      → k.pidfd_send_signal fd signal w ≡ (err e, w')
      → is_esrch e.raw_os_error ≡ true
      → Gone fd w'
  pub pollin :
      (fd : F) (w : W) {events : Option ℕ} {w' : W}
      → k.poll fd w ≡ (ok events, w')
      → has_pollin events ≡ true
      → Gone fd w'
  pub poll_error :
      (fd : F) (w : W) {e : IoError} {w' : W}
      → k.poll fd w ≡ (err e, w')
      → is_esrch e.raw_os_error ≡ false
  pub readable_error :
      (fd : F) (w : W) {e : IoError} {w' : W}
      → k.readable fd w ≡ (err e, w')
      → is_esrch e.raw_os_error ≡ false

mapped-eq-missing :
    (e : IoError) → map_signal_error e ≡ not_running → is_esrch e.raw_os_error ≡ true
unfolding map_signal_error
mapped-eq-missing e h = ground (arith, h)

module _ {W F : Type 0} (k : Kernel W F) (Gone : F → W → Type 0) (v : IsPidfd k Gone) where
  signal_missing :
      (fd : F) (signal : ℕ) (w : W) (x : Result (Unit {0}) IoError × W) {w' : W}
      → k.pidfd_send_signal fd signal w ≡ x
      → mapped k x ≡ (err not_running, w')
      → Gone fd w'
  unfolding mapped
  signal_missing fd signal w (ok u, w1) sent h = absurd (ok-ne-err h)
  signal_missing fd signal w (err e, w1) sent h =
      let (missing, same) = err-eq-err h in
      v.esrch fd signal w (sent ∙ ap (λ q. (err e, q)) same) (mapped-eq-missing e missing)

  send_signal_missing :
      (fd : F) (signal : ℕ) (w : W) {w' : W}
      → send_signal k fd signal w ≡ (err not_running, w')
      → Gone fd w'
  unfolding send_signal
  send_signal_missing fd signal w h =
      signal_missing fd signal w (k.pidfd_send_signal fd signal w) refl h

  poll-Gone :
      (fd : F) (w : W) (x : Result (Option ℕ) IoError × W) {w' : W}
      → k.poll fd w ≡ x
      → poll_result k x ≡ (ok true, w')
      → Gone fd w'
  unfolding poll_result
  poll-Gone fd w (ok events, w1) polled h =
      let (there, same) = ok-eq-ok h in v.pollin fd w (polled ∙ ap (λ q. (ok events, q)) same) there
  poll-Gone fd w (err e, w1) polled h = absurd (ok-ne-err (sym h))

  now-Gone : (fd : F) (w : W) {w' : W} → poll_readable_now k fd w ≡ (ok true, w') → Gone fd w'
  unfolding poll_readable_now
  now-Gone fd w h = poll-Gone fd w (k.poll fd w) refl h

  poll_err :
      (fd : F) (w : W) (x : Result (Option ℕ) IoError × W) {e : IoError} {w' : W}
      → k.poll fd w ≡ x
      → poll_result k x ≡ (err e, w')
      → is_esrch e.raw_os_error ≡ false
  unfolding poll_result
  poll_err fd w (ok events, w1) polled h = absurd (ok-ne-err h)
  poll_err fd w (err e, w1) polled h =
      ap (λ i. is_esrch i.raw_os_error) (sym (err-eq-err h).0) ∙ v.poll_error fd w polled

  now_err :
      (fd : F) (w : W) {e : IoError} {w' : W}
      → poll_readable_now k fd w ≡ (err e, w')
      → is_esrch e.raw_os_error ≡ false
  unfolding poll_readable_now
  now_err fd w h = poll_err fd w (k.poll fd w) refl h

  -- An answer of `wait` that says that the process has ended is right.
  abbrev IsHonest : F → Result Bool ProcessError × W → Type 0
  IsHonest fd r = (w' : W) → (r ≡ (ok true, w')) ⊎ (r ≡ (err not_running, w')) → Gone fd w'

  io-IsHonest :
      (fd : F) (e : IoError) (w : W)
      → is_esrch e.raw_os_error ≡ false
      → IsHonest fd (err (map_signal_error e), w)
  io-IsHonest fd e w other w' (inl h) = absurd (ok-ne-err (sym h))
  io-IsHonest fd e w other w' (inr h) =
      let missing : is_esrch e.raw_os_error ≡ true = mapped-eq-missing e (err-eq-err h).0 in
      absurd (ground arith)

  after_poll-IsHonest :
      (again : W → Result Bool ProcessError × W) (fd : F) (w : W) (x : Result Bool IoError × W)
      → ((w1 : W) → IsHonest fd (again w1))
      → poll_readable_now k fd w ≡ x
      → IsHonest fd (after_poll k again x)
  unfolding after_poll
  after_poll-IsHonest again fd w (ok true, w1) honest polled w' (inl h) =
      now-Gone fd w (polled ∙ h')
    where
      h' : ◌≡◌ {A = Result Bool IoError × W} (ok true, w1) (ok true, w')
      h' = ap (λ q. (ok true, q)) (ok-eq-ok h).1
  after_poll-IsHonest again fd w (ok true, w1) honest polled w' (inr h) = absurd (ok-ne-err h)
  after_poll-IsHonest again fd w (ok false, w1) honest polled w' h = honest w1 w' h
  after_poll-IsHonest again fd w (err e, w1) honest polled w' h =
      elim (Bool-cases (is_would_block e.kind)) [
        | inl block ↦ subst (IsHonest fd) (sym (if_true _ _ block)) (honest w1) w' h
        | inr failed ↦
            subst (IsHonest fd) (sym (if_false _ _ failed))
              (io-IsHonest fd e w1 (now_err fd w polled)) w' h
      ]

  after_wakeup-IsHonest :
      (again : W → Result Bool ProcessError × W) (fd : F) (w : W)
      (x : Result (Unit {0}) IoError × W)
      → ((w1 : W) → IsHonest fd (again w1))
      → k.readable fd w ≡ x
      → IsHonest fd (after_wakeup k again fd x)
  unfolding after_wakeup
  after_wakeup-IsHonest again fd w (ok u, w1) honest woken =
      after_poll-IsHonest again fd w1 (poll_readable_now k fd w1) honest refl
  after_wakeup-IsHonest again fd w (err e, w1) honest failed =
      io-IsHonest fd e w1 (v.readable_error fd w failed)

  wait_for_exit-IsHonest :
      (left timeout : ℕ) (fd : F) (w : W) → IsHonest fd (wait_for_exit k left timeout fd w)
  unfolding wait_for_exit
  wait_for_exit-IsHonest zero timeout fd w w' (inl h) = cc (ok-eq-ok h).0
  wait_for_exit-IsHonest zero timeout fd w w' (inr h) = absurd (ok-ne-err h)
  wait_for_exit-IsHonest (suc left) timeout fd w w' h =
      after_wakeup-IsHonest (wait_for_exit k left timeout fd) fd w (k.readable fd w)
        (wait_for_exit-IsHonest left timeout fd) refl w' h

  mapped-IsHonest :
      (fd : F) (w : W) (x : Result Bool IoError × W)
      → poll_readable_now k fd w ≡ x
      → IsHonest fd (mapped k x)
  unfolding mapped
  mapped-IsHonest fd w (ok true, w1) polled w' (inl h) =
      now-Gone fd w (polled ∙ ap (λ q. (ok true, q)) (ok-eq-ok h).1)
  mapped-IsHonest fd w (ok false, w1) polled w' (inl h) = cc (ok-eq-ok h).0
  mapped-IsHonest fd w (ok b, w1) polled w' (inr h) = absurd (ok-ne-err h)
  mapped-IsHonest fd w (err e, w1) polled w' h = io-IsHonest fd e w1 (now_err fd w polled) w' h

  wait-IsHonest : (fd : F) (timeout : ℕ) (w : W) → IsHonest fd (wait k fd timeout w)
  unfolding wait
  wait-IsHonest fd timeout w = elim (Bool-cases (timeout == 0)) [
    | inl zero_timeout ↦ rw zero_timeout (mapped-IsHonest fd w (poll_readable_now k fd w) refl)
    | inr waiting ↦ rw waiting (wait_for_exit-IsHonest (k.wakeups fd timeout w) timeout fd w)
  ]

  -- On a kernel that keeps the promises of IsPidfd the Linux handle does what the trait
  -- ProcessControl promises about the end of the process: an operation that answers that the
  -- process is not running, and a wait that answers true, leave the system in a state in which it
  -- has ended.
  pub linux_control-IsTruthful : IsTruthful (linux_control k) Gone
  unfolding linux_control
  linux_control-IsTruthful = record {
    check_missing = λ fd w h. send_signal_missing fd 0 w h;
    kill_missing = λ fd w h. send_signal_missing fd 9 w h;
    terminate_missing = λ fd w h. send_signal_missing fd 15 w h;
    wait_missing = λ fd n w h. wait-IsHonest fd n w _ (inr h);
    wait_ended = λ fd n w h. wait-IsHonest fd n w _ (inl h);
  }
