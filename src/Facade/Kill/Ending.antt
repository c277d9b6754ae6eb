-- ===== src/Facade/Kill/Ending.antt =====
-- When `KillHandle.kill` succeeds, and when it fails.
use knot_ops.Prelude.{
  Bool, true, false, ◌≡◌, refl, sym, ap, ◌∙◌, ◌⊎◌, inl, inr, arith, ◌==◌, Bool-cases,
}
use knot_ops.Sys.Errors.{
  ProcessError, not_running, mismatch, reused, io, Result, ok, err, Action, ok-eq-ok,
}
use knot_ops.Sys.Process.{ProcessControl, kill, terminate}
use knot_ops.Facade.Errors.{SignalError, not_responding}
use knot_ops.Facade.Stale.{StaleHandle}
use knot_ops.Facade.Kill.{
  KillHandle, graceful, forced, stale, try_terminate, transition, after_terminate, kill_daemon,
}

module _ {W : Type 0} where
  -- A signal after which the process is known to have ended.
  abbrev pub IsGone : Result Bool ProcessError × W → W → Type 0
  IsGone x w' = (x ≡ (ok true, w')) ⊎ (x ≡ (err not_running, w'))

  graceful-IsGone :
      (x : Result Bool ProcessError × W) {w' : W} → graceful x ≡ (ok true, w') → IsGone x w'
  unfolding graceful
  graceful-IsGone (ok true, w) e = inl (ap (λ y. (ok true, y.1)) e)
  graceful-IsGone (ok false, w) e = absurd (ground arith)
  graceful-IsGone (err not_running, w) e = inr (ap (λ y. (err not_running, y.1)) e)
  graceful-IsGone (err (mismatch expected actual), w) e = absurd (ground arith)
  graceful-IsGone (err (io i), w) e = absurd (ground arith)
  graceful-IsGone (err reused, w) e = absurd (ground arith)

  forced-IsGone :
      (x : Result Bool ProcessError × W) {u : Unit {0}} {w' : W}
      → forced x ≡ (ok u, w')
      → IsGone x w'
  unfolding forced
  forced-IsGone (ok true, w) e = inl (ap (λ y. (ok true, y.1)) e)
  forced-IsGone (ok false, w) e = absurd (ground arith)
  forced-IsGone (err not_running, w) e = inr (ap (λ y. (err not_running, y.1)) e)
  forced-IsGone (err (mismatch expected actual), w) e = absurd (ground arith)
  forced-IsGone (err (io i), w) e = absurd (ground arith)
  forced-IsGone (err reused, w) e = absurd (ground arith)

module _ {W : Type 0} where
  forced_unresponsive :
      (x : Result Bool ProcessError × W) {w' : W}
      → forced x ≡ (err not_responding, w')
      → x ≡ (ok false, w')
  unfolding forced
  forced_unresponsive (ok true, w) e = absurd (ground arith)
  forced_unresponsive (ok false, w) e = ap (λ y. (ok false, y.1)) e
  forced_unresponsive (err not_running, w) e = absurd (ground arith)
  forced_unresponsive (err (mismatch expected actual), w) e = absurd (ground arith)
  forced_unresponsive (err (io i), w) e = absurd (ground arith)
  forced_unresponsive (err reused, w) e = absurd (ground arith)

  graceful_responsive :
      (x : Result Bool ProcessError × W) {w' : W} → graceful x ≡ (err not_responding, w') → ⊥
  unfolding graceful
  graceful_responsive (ok sent, w) e = ground arith
  graceful_responsive (err not_running, w) e = ground arith
  graceful_responsive (err (mismatch expected actual), w) e = ground arith
  graceful_responsive (err (io i), w) e = ground arith
  graceful_responsive (err reused, w) e = ground arith

module _ {W T : Type 0} (control : ProcessControl W T) (h : KillHandle T) where
  -- The daemon has ended, by the graceful signal or by the forceful one.
  abbrev pub WasEnded : W → W → Type 0
  WasEnded w w' =
      IsGone (terminate control h.process h.policy.kill.graceful_timeout w) w'
      ⊎ ((w1 : W) × IsGone (kill control h.process h.policy.kill.force_timeout w1) w')

  try_terminate_sent :
      (w : W)
      → (h.policy.kill.graceful_timeout == 0) ≡ false
      → try_terminate control h w
        ≡ graceful (terminate control h.process h.policy.kill.graceful_timeout w)
  unfolding try_terminate
  try_terminate_sent w tried = rw (tried, try_terminate) refl

  try_terminate-IsGone :
      (w : W) {w' : W}
      → try_terminate control h w ≡ (ok true, w')
      → IsGone (terminate control h.process h.policy.kill.graceful_timeout w) w'
  unfolding try_terminate
  try_terminate-IsGone w e = elim (Bool-cases (h.policy.kill.graceful_timeout == 0)) [
    | inl skipped ↦ absurd (ground (arith, e, skipped))
    | inr tried ↦ graceful-IsGone _ (sym (try_terminate_sent w tried) ∙ e)
  ]

  transition-ok :
      (x : Result (Unit {0}) SignalError × W) {s : StaleHandle} {w' : W}
      → transition control h x ≡ (ok s, w')
      → (s ≡ stale h) × (u : Unit {0}) × (x ≡ (ok u, w'))
  unfolding transition
  transition-ok (ok u, w) e = (sym ((ok-eq-ok e).0), u, ap (λ y. (ok u, y.1)) e)
  transition-ok (err i, w) e = absurd (ground arith)

  after_terminate-WasEnded :
      (w : W) (x : Result Bool SignalError × W) {s : StaleHandle} {w' : W}
      → try_terminate control h w ≡ x
      → after_terminate control h x ≡ (ok s, w')
      → (s ≡ stale h) × WasEnded w w'
  unfolding after_terminate transition
  after_terminate-WasEnded w (err e, w1) tried ends = absurd (ground arith)
  after_terminate-WasEnded w (ok true, w1) tried ends = (
    sym ((ok-eq-ok ends).0),
    inl (try_terminate-IsGone w (tried ∙ ap (λ y. (ok true, y.1)) ends)),
  )
  after_terminate-WasEnded w (ok false, w1) tried ends =
      let (is_stale, u, end) =
        transition-ok (forced (kill control h.process h.policy.kill.force_timeout w1)) ends in
      (is_stale, inr (w1, forced-IsGone _ end))

  -- KillHandle.kill succeeds only with the data of the handle, and after a signal, the graceful
  -- one or the forceful one, that the process was seen to obey or that found it no longer running.
  pub kill_daemon-WasEnded :
      (w : W) (s : StaleHandle) (w' : W)
      → kill_daemon control h w ≡ (ok s, w')
      → (s ≡ stale h) × WasEnded w w'
  unfolding kill_daemon
  kill_daemon-WasEnded w s w' ends =
      after_terminate-WasEnded w (try_terminate control h w) refl ends

  -- With a graceful timeout of zero the outcome of KillHandle.kill is the same for every
  -- implementation of the graceful signal.
  pub kill_daemon_forceful :
      (w : W) (other : T → Action W ProcessError (Unit {0}))
      → h.policy.kill.graceful_timeout ≡ 0
      → kill_daemon (record control { terminate = other }) h w ≡ kill_daemon control h w
  unfolding kill_daemon after_terminate try_terminate transition kill
  kill_daemon_forceful w other at_once = ground (arith, at_once)

  try_terminate_responsive :
      (w : W) {w' : W} → try_terminate control h w ≡ (err not_responding, w') → ⊥
  unfolding try_terminate
  try_terminate_responsive w e = elim (Bool-cases (h.policy.kill.graceful_timeout == 0)) [
    | inl skipped ↦ ground (arith, e, skipped)
    | inr tried ↦ graceful_responsive _ (sym (try_terminate_sent w tried) ∙ e)
  ]

  transition-err :
      (x : Result (Unit {0}) SignalError × W) {e : SignalError} {w' : W}
      → transition control h x ≡ (err e, w')
      → x ≡ (err e, w')
  unfolding transition
  transition-err (ok u, w) e = absurd (ground arith)
  transition-err (err i, w) e = ground arith

  after_terminate_unresponsive :
      (w : W) (x : Result Bool SignalError × W) {w' : W}
      → try_terminate control h w ≡ x
      → after_terminate control h x ≡ (err not_responding, w')
      → (w1 : W) × (kill control h.process h.policy.kill.force_timeout w1 ≡ (ok false, w'))
  unfolding after_terminate
  after_terminate_unresponsive w (err e, w1) {w'} tried ends =
      let failed : try_terminate control h w ≡ (err not_responding, w') =
        tried ∙ ap (λ y. elim y.0 [ ok s ↦ (err e, y.1) | err i ↦ (err i, y.1) ]) ends in
      absurd (try_terminate_responsive w failed)
  after_terminate_unresponsive w (ok true, w1) tried ends = absurd (ground arith)
  after_terminate_unresponsive w (ok false, w1) tried ends = (
    w1,
    forced_unresponsive _
        (transition-err (forced (kill control h.process h.policy.kill.force_timeout w1)) ends),
  )

  -- KillHandle.kill reports an unresponsive process only if the forceful signal was sent and the
  -- process was not seen to end within the timeout of that signal.
  pub kill_daemon_unresponsive :
      (w w' : W)
      → kill_daemon control h w ≡ (err not_responding, w')
      → (w1 : W) × (kill control h.process h.policy.kill.force_timeout w1 ≡ (ok false, w'))
  unfolding kill_daemon
  kill_daemon_unresponsive w w' ends =
      after_terminate_unresponsive w (try_terminate control h w) refl ends
