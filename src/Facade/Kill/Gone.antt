-- ===== src/Facade/Kill/Gone.antt =====
-- `KillHandle.kill` over a handle that keeps the promises of sys/src/traits.rs.
use knot_ops.Prelude.{◌≡◌, inl, inr}
use knot_ops.Sys.Errors.{ok}
use knot_ops.Sys.Process.{ProcessControl}
use knot_ops.Sys.Process.Truthful.{IsTruthful, kill-Gone, terminate-Gone}
use knot_ops.Facade.Stale.{StaleHandle}
use knot_ops.Facade.Kill.{KillHandle, kill_daemon}
use knot_ops.Facade.Kill.Ending.{kill_daemon-WasEnded}

-- If what the process handle says about the end of its process is right, then a successful
-- KillHandle.kill leaves the system in a state in which the process of the daemon has ended.
pub kill_daemon-Gone :
    {W T : Type 0} (control : ProcessControl W T) (Gone : T → W → Type 0)
    (v : IsTruthful control Gone) (h : KillHandle T) (w : W) (s : StaleHandle) (w' : W)
    → kill_daemon control h w ≡ (ok s, w')
    → Gone h.process.handle w'
kill_daemon-Gone control Gone v h w s w' ends =
    elim ((kill_daemon-WasEnded control h w s w' ends).1) [
      | inl gracefully ↦
          terminate-Gone control Gone v h.process h.policy.kill.graceful_timeout w gracefully
      | inr (w1, forcefully) ↦
          kill-Gone control Gone v h.process h.policy.kill.force_timeout w1 forcefully
    ]
