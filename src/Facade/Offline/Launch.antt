-- ===== src/Facade/Offline/Launch.antt =====
-- When a launch succeeds, and when it is given up.
use knot_ops.Prelude.{ℕ, zero, suc, ◌≤◌, ◌<◌, codes, some, ◌≡◌, refl, ap, ◌∙◌, arith}
use knot_ops.Sys.Errors.{Result, ok, err}
use knot_ops.Sys.Process.{Host, ProcessControl, PlatformProcess, spawn, kill}
use knot_ops.Facade.Errors.{ClientError, daemon, launch_failed}
use knot_ops.Facade.Stale.{Files, OfflineHandle, socket_path}
use knot_ops.Facade.Session.{ConnectedHandle}
use knot_ops.Facade.Dial.{Dialer, dial}
use knot_ops.Facade.Offline.{give_up, wait_for_socket, spawned, launch_of, launch}

module _ {W T N A : Type 0} (host : Host W) (control : ProcessControl W T) (fs : Files W)
    (dialer : Dialer W N A) (h : OfflineHandle) where
  -- The connection attempt of the loop.
  abbrev pub try : W → Result ConnectedHandle ClientError × W
  try w = dial dialer (socket_path fs h.runtime_dir) h.policy w

  -- The state of the system before the attempt with this number, the first being 0, if all attempts
  -- before it failed.
  unfoldable pub before : ℕ → W → W
  before zero w = w
  before (suc k) w = before k (host.sleep 50 (try w).1)

  -- The attempt with this number fails.
  abbrev pub Fails : ℕ → W → Type 0
  Fails k w = (e : ClientError) × ((try (before k w)).0 ≡ err e)

  abbrev wait : ℕ → PlatformProcess T → W → Result ConnectedHandle ClientError × W
  wait more process w = wait_for_socket host control fs dialer more h process w

  wait_step :
      (more : ℕ) (process : PlatformProcess T) (w : W)
      → Fails 0 w
      → wait (suc more) process w ≡ wait more process (host.sleep 50 (try w).1)
  unfolding wait_for_socket before
  wait_step more process w (e, fails) = rw (fails, wait_for_socket) refl

  wait_answers :
      (more k : ℕ) (process : PlatformProcess T) (w : W) {handle : ConnectedHandle}
      → k ≤ more
      → ((j : ℕ) → j < k → Fails j w)
      → (try (before k w)).0 ≡ ok handle
      → wait more process w ≡ (ok handle, (try (before k w)).1)
  unfolding wait_for_socket before
  wait_answers zero zero process w le fails answers = rw (answers, wait_for_socket) refl
  wait_answers (suc more) zero process w le fails answers = rw (answers, wait_for_socket) refl
  wait_answers zero (suc k) process w le fails answers = absurd (omega arith)
  wait_answers (suc more) (suc k) process w le fails answers =
      wait_step more process w (fails 0 (omega arith))
      ∙ wait_answers more k process (host.sleep 50 (try w).1) (omega arith)
          (λ j lt. fails (suc j) (omega arith)) answers

  wait-Fails :
      (more : ℕ) (process : PlatformProcess T) (w : W)
      → ((j : ℕ) → j ≤ more → Fails j w)
      → wait more process w ≡ give_up host control fs dialer h process (try (before more w)).1
  unfolding wait_for_socket before
  wait-Fails zero process w fails =
      let (e, first) = fails 0 (omega arith) in rw (first, wait_for_socket) refl
  wait-Fails (suc more) process w fails =
      wait_step more process w (fails 0 (omega arith))
      ∙ wait-Fails more process (host.sleep 50 (try w).1) (λ j le. fails (suc j) (omega arith))

  -- If the daemon could be spawned, and the socket answers at one of the first 40 attempts, then
  -- launch succeeds with that connection, after the attempts and pauses before it.
  pub launch_answers :
      (w w1 : W) (process : PlatformProcess T) (k : ℕ) (handle : ConnectedHandle)
      → spawn host control h.daemon_path w ≡ some (ok process, w1)
      → k < 40
      → ((j : ℕ) → j < k → Fails j w1)
      → (try (before k w1)).0 ≡ ok handle
      → launch host control fs dialer h w ≡ some (ok handle, (try (before k w1)).1)
  unfolding launch launch_of spawned
  launch_answers w w1 process k handle spawns few fails answers =
      ap (launch_of host control fs dialer h) spawns
      ∙ ap (λ r. some r) (wait_answers 39 k process w1 (omega arith) fails answers)

  -- If the daemon could be spawned and all 40 attempts at its socket fail, launch kills the
  -- process that it spawned, whatever comes of that, and fails with an error that names the path
  -- of the binary.
  pub launch_given_up :
      (w w1 : W) (process : PlatformProcess T)
      → spawn host control h.daemon_path w ≡ some (ok process, w1)
      → ((j : ℕ) → j < 40 → Fails j w1)
      → let killed = kill control process h.policy.kill.graceful_timeout (try (before 39 w1)).1 in
        launch host control fs dialer h w
        ≡ some (
          err (
              daemon (
                launch_failed
                  (codes "daemon process was spawned, but IPC socket never appeared")
                  h.daemon_path
                  (codes "socket not found"))),
          killed.1,
        )
  unfolding launch launch_of spawned give_up
  launch_given_up w w1 process spawns fails =
      ap (launch_of host control fs dialer h) spawns
      ∙ ap (λ r. some r) (wait-Fails 39 process w1 (λ j le. fails j (omega arith)))
