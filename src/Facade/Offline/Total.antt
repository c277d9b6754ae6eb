-- ===== src/Facade/Offline/Total.antt =====
-- Every launch of a daemon that could be spawned ends, in one of two ways.
use knot_ops.Prelude.{
  ℕ, zero, suc, ◌<◌, ltb, Bool-cases, subst, codes, Option, none, some, ◌≡◌, refl, sym, ap, ◌⊎◌,
  inl, inr, arith,
}
use knot_ops.Sys.Errors.{ProcessError, display, Result, ok, err}
use knot_ops.Sys.Process.{Host, ProcessControl, PlatformProcess, spawn, kill}
use knot_ops.Facade.Errors.{ClientError, daemon, launch_failed}
use knot_ops.Facade.Stale.{Files, OfflineHandle}
use knot_ops.Facade.Session.{ConnectedHandle}
use knot_ops.Facade.Dial.{Dialer}
use knot_ops.Facade.Offline.{launch, launch_of, spawned}
use knot_ops.Facade.Offline.Launch.{try, before, Fails, launch_answers, launch_given_up}

module _ {W T N A : Type 0} (host : Host W) (control : ProcessControl W T) (fs : Files W)
    (dialer : Dialer W N A) (h : OfflineHandle) where
  abbrev attempt : ℕ → W → Result ConnectedHandle ClientError × W
  attempt k w = try host control fs dialer h (before host control fs dialer h k w)

  -- The attempt with this number is the first that is answered.
  pub record Answers (k : ℕ) (w : W) : Type 0 where
    pub handle : ConnectedHandle
    pub answered : (attempt k w).0 ≡ ok handle
    pub earlier : (j : ℕ) → j < k → Fails host control fs dialer h j w

  result_of :
      (r : Result ConnectedHandle ClientError)
      → ((x : ConnectedHandle) × (r ≡ ok x)) ⊎ ((e : ClientError) × (r ≡ err e))
  result_of (ok x) = inl (x, refl)
  result_of (err e) = inr (e, refl)

  all_fail :
      (n : ℕ) (w : W)
      → ((j : ℕ) → j < n → Fails host control fs dialer h j w)
      → Fails host control fs dialer h n w
      → (j : ℕ) → j < suc n
      → Fails host control fs dialer h j w
  all_fail n w fails last j lt = elim (Bool-cases (ltb j n)) [
    | inl before_last ↦ fails j (ground arith)
    | inr at_last ↦
        let same : n ≡ j = ground arith in subst (λ i. Fails host control fs dialer h i w) same last
  ]

  -- Of the first n attempts one is answered first, or all fail.
  first_answer :
      (n : ℕ) (w : W)
      → ((k : ℕ) × (k < n) × Answers k w) ⊎ ((j : ℕ) → j < n → Fails host control fs dialer h j w)
  first_answer zero w = inr (λ j lt. absurd (omega arith))
  first_answer (suc n) w = elim (first_answer n w) [
    | inl (k, lt, found) ↦ inl (k, omega arith, found)
    | inr fails ↦ elim (result_of (attempt n w).0) [
      | inl (handle, answered) ↦
          inl (n, omega arith, record { handle = handle; answered = answered; earlier = fails })
      | inr last ↦ inr (all_fail n w fails last)
    ]
  ]

  -- What comes of a launch in the state `w`: a panic of the spawn; its error; the connection of the
  -- first of 40 attempts that is answered; or, if all fail, an error, after the process was killed.
  pub data Launched (w : W) : Option (Result ConnectedHandle ClientError × W) → Type 0 where
    panics : spawn host control h.daemon_path w ≡ none → Launched w none
    unspawned :
        {e : ProcessError} {w1 : W}
        → spawn host control h.daemon_path w ≡ some (err e, w1)
        → Launched w (
            some (
              err (
                  daemon (
                    launch_failed
                      (codes "failed to execute daemon binary")
                      h.daemon_path
                      (display e))),
              w1,
            ))
    answers :
        {process : PlatformProcess T} {w1 : W}
        → spawn host control h.daemon_path w ≡ some (ok process, w1)
        → (k : ℕ) → k < 40
        → (a : Answers k w1) → Launched w (some (ok a.handle, (attempt k w1).1))
    given_up :
        {process : PlatformProcess T} {w1 : W}
        → spawn host control h.daemon_path w ≡ some (ok process, w1)
        → ((j : ℕ) → j < 40 → Fails host control fs dialer h j w1)
        → Launched w (
            some (
              err (
                  daemon (
                    launch_failed
                      (codes "daemon process was spawned, but IPC socket never appeared")
                      h.daemon_path
                      (codes "socket not found"))),
              (kill control process h.policy.kill.graceful_timeout (attempt 39 w1).1).1,
            ))

  spawned-Launched :
      (w : W) (s : Option (Result (PlatformProcess T) ProcessError × W))
      → spawn host control h.daemon_path w ≡ s
      → Launched w (launch host control fs dialer h w)
  unfolding launch launch_of spawned
  spawned-Launched w none e =
      subst (Launched w) (sym (ap (launch_of host control fs dialer h) e)) (panics e)
  spawned-Launched w (some (err i, w1)) e =
      subst (Launched w) (sym (ap (launch_of host control fs dialer h) e)) (unspawned e)
  spawned-Launched w (some (ok process, w1)) e = elim (first_answer 40 w1) [
    | inl (k, few, a) ↦
        subst (Launched w)
          (sym (
            launch_answers host control fs dialer h w w1 process k a.handle e few a.earlier
              a.answered))
          (answers e k few a)
    | inr fails ↦
        subst (Launched w) (sym (launch_given_up host control fs dialer h w w1 process e fails))
          (given_up e fails)
  ]

  -- A launch ends in one of four ways. It panics exactly as the spawn does. It fails with an error
  -- that names the path of the binary and the error of the spawn. The spawn succeeds and one of 40
  -- attempts at the socket is the first that is answered: then it succeeds with that connection,
  -- in the state that this attempt left. Or all 40 fail: then it kills the process that it
  -- spawned, whatever comes of that, and fails with an error that names the path of the binary.
  pub launch-Launched : (w : W) → Launched w (launch host control fs dialer h w)
  launch-Launched w = spawned-Launched w (spawn host control h.daemon_path w) refl
