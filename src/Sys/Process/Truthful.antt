-- ===== src/Sys/Process/Truthful.antt =====
-- What the operations of a process handle promise in sys/src/traits.rs about the end of the process, and
-- what kill and terminate of sys/src/process.rs make of it.
use knot_ops.Prelude.{ℕ, true, ◌≡◌, ◌⊎◌, inl, inr}
use knot_ops.Sys.Errors.{
  ProcessError, not_running, ok, err, Action, ◌>>◌, after-eq-ok, after-eq-err,
}
use knot_ops.Sys.Process.{ProcessControl, PlatformProcess, kill, terminate}

-- `Gone handle w`: the process of the handle has ended in the state `w` of the system.
pub record IsTruthful {W T : Type 0} (control : ProcessControl W T) (Gone : T → W → Type 0)
    : Type 0 where
  pub check_missing :
      (t : T) (w : W) {w' : W} → control.check_permissions t w ≡ (err not_running, w') → Gone t w'
  pub kill_missing : (t : T) (w : W) {w' : W} → control.kill t w ≡ (err not_running, w') → Gone t w'
  pub terminate_missing :
      (t : T) (w : W) {w' : W} → control.terminate t w ≡ (err not_running, w') → Gone t w'
  pub wait_missing :
      (t : T) (n : ℕ) (w : W) {w' : W} → control.wait t n w ≡ (err not_running, w') → Gone t w'
  pub wait_ended : (t : T) (n : ℕ) (w : W) {w' : W} → control.wait t n w ≡ (ok true, w') → Gone t w'

module _ {W T : Type 0} (control : ProcessControl W T) (Gone : T → W → Type 0)
    (v : IsTruthful control Gone) (p : PlatformProcess T) (timeout : ℕ) where
  -- A check, a signal and a wait.
  signalled :
      (signal : T → Action W ProcessError (Unit {0})) (w : W) {w' : W}
      → ((w0 : W) (w1 : W) → signal p.handle w0 ≡ (err not_running, w1) → Gone p.handle w1)
      → let run =
          control.check_permissions p.handle
          >> (signal p.handle >> control.wait p.handle timeout) in
        (run w ≡ (ok true, w')) ⊎ (run w ≡ (err not_running, w')) → Gone p.handle w'
  signalled signal w missing (inl ends) =
      let (u, w1, _, more) =
        after-eq-ok (control.check_permissions p.handle w)
          (λ _. signal p.handle >> control.wait p.handle timeout) ends in
      let (u', w2, _, end) =
        after-eq-ok (signal p.handle w1) (λ _. control.wait p.handle timeout) more in
      v.wait_ended p.handle timeout w2 end
  signalled signal w missing (inr gone) =
      elim (after-eq-err (control.check_permissions p.handle w)
        (λ _. signal p.handle >> control.wait p.handle timeout) gone) [
          | inl at_check ↦ v.check_missing p.handle w at_check
          | inr (u, w1, _, more) ↦
              elim (after-eq-err (signal p.handle w1) (λ _. control.wait p.handle timeout) more) [
                | inl at_signal ↦ missing w1 _ at_signal
                | inr (u', w2, _, at_wait) ↦ v.wait_missing p.handle timeout w2 at_wait
              ]
        ]

  -- A process that was seen to end, or was not there, has ended.
  pub kill-Gone :
      (w : W) {w' : W}
      → (kill control p timeout w ≡ (ok true, w'))
        ⊎ (kill control p timeout w ≡ (err not_running, w'))
      → Gone p.handle w'
  unfolding kill
  kill-Gone w h = signalled control.kill w (λ w0 w1 e. v.kill_missing p.handle w0 e) h

  pub terminate-Gone :
      (w : W) {w' : W}
      → (terminate control p timeout w ≡ (ok true, w'))
        ⊎ (terminate control p timeout w ≡ (err not_running, w'))
      → Gone p.handle w'
  unfolding terminate
  terminate-Gone w h =
      signalled control.terminate w (λ w0 w1 e. v.terminate_missing p.handle w0 e) h
