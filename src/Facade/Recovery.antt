-- ===== src/Facade/Recovery.antt =====
-- How a client brings a daemon that hangs, or one that is dead, to a clean start: `connect`, `kill`,
-- `clean` and `connect` again. Between the calls the system may change in any way.
use knot_ops.Prelude.{false, ◌≡◌, sym, ap, ◌∙◌, arith, if_false}
use knot_ops.Sys.Errors.{Result, ok}
use knot_ops.Sys.Process.{Host, ProcessControl}
use knot_ops.Facade.Errors.{ClientError}
use knot_ops.Facade.Stale.{Files, StaleHandle, OfflineHandle, socket_there, lock_path, clean}
use knot_ops.Facade.Stale
use knot_ops.Facade.Stale.Purge.{IsFileSystem, clean_purges}
use knot_ops.Facade.Kill.{KillHandle, kill_daemon}
use knot_ops.Facade.Kill
use knot_ops.Facade.Kill.Ending.{kill_daemon-WasEnded}
use knot_ops.Facade.Dial.{Dialer}
use knot_ops.Facade.Connect.{
  ConnectState, offline, stale, hung, ClientBuilder, as_stale, as_offline, as_hung, connect,
}
use knot_ops.Facade.Connect.Outcome.{
  Reason, answers, no_files, only_socket, no_pid, dead, alive, unknown, connect-Reason,
}

module _ {W T N A : Type 0} (host : Host W) (control : ProcessControl W T) (fs : Files W)
    (dialer : Dialer W N A) (b : ClientBuilder) where
  hung_of :
      {w w' : W} {r : Result (ConnectState T) ClientError} (k : KillHandle T)
      → Reason host control fs dialer b w r w'
      → r ≡ ok (hung k)
      → k ≡ as_hung b k.process
  unfolding as_hung
  hung_of k (answers _ _) e = cc
  hung_of k (no_files _ _) e = cc
  hung_of k (only_socket _ _) e = cc
  hung_of k (no_pid _ _) e = cc
  hung_of k (dead _ _ _ _) e = cc
  hung_of k (alive _ _ _) e = ground (arith, e)
  hung_of k (unknown _ _ _) e = cc

  stale_of :
      {w w' : W} {r : Result (ConnectState T) ClientError} (s : StaleHandle)
      → Reason host control fs dialer b w r w'
      → r ≡ ok (stale s)
      → s ≡ as_stale b
  stale_of s (answers _ _) e = cc
  stale_of s (no_files _ _) e = cc
  stale_of s (only_socket _ _) e = cc
  stale_of s (no_pid _ _) e = cc
  stale_of s (dead _ _ _ _) e = cc
  stale_of s (alive _ _ _) e = cc
  stale_of s (unknown _ _ _) e = cc

  no_files_offline :
      (w : W)
      → fs.exists (lock_path fs b.runtime_dir) w ≡ false
      → socket_there fs dialer.names.target b.runtime_dir w ≡ false
      → connect host control fs dialer b w ≡ (ok (offline (as_offline b)), w)
  unfolding connect
  no_files_offline w no_lock no_socket = if_false _ _ no_lock ∙ if_false _ _ no_socket

  stale_of_hung : (k : KillHandle T) → k ≡ as_hung b k.process → Kill.stale k ≡ as_stale b
  unfolding as_hung as_stale Kill.stale
  stale_of_hung k e = ap (λ q. Kill.stale q) e

  module _ (v : IsFileSystem fs) where
    -- After a successful `clean` of the directory the daemon is seen to be offline.
    clean_connect :
        (s : StaleHandle) (w : W) (off : OfflineHandle) (w' : W)
        → s ≡ as_stale b
        → clean fs dialer.names.target s w ≡ (ok off, w')
        → (off ≡ as_offline b) × (connect host control fs dialer b w' ≡ (ok (offline off), w'))
    unfolding as_stale as_offline Stale.offline
    clean_connect s w off w' from_b purged =
        let (no_socket, no_lock, same) = clean_purges fs v dialer.names.target s w off w' purged in
        let e : off ≡ as_offline b = same ∙ ap Stale.offline from_b in
        let dir : s.runtime_dir ≡ b.runtime_dir = ap (λ q. q.runtime_dir) from_b in
        (
          e,
          no_files_offline w' (ap (λ d. fs.exists (lock_path fs d) w') (sym dir) ∙ no_lock)
                (ap (λ d. socket_there fs dialer.names.target d w') (sym dir) ∙ no_socket)
              ∙ ap (λ o. (ok (offline o), w')) (sym e),
        )

    -- A dead daemon that `connect` reports can be cleaned up after; then `connect` reports it offline.
    pub stale_recovers :
        (w w1 w2 w3 : W) (s : StaleHandle) (off : OfflineHandle)
        → connect host control fs dialer b w ≡ (ok (stale s), w1)
        → clean fs dialer.names.target s w2 ≡ (ok off, w3)
        → (off ≡ as_offline b) × (connect host control fs dialer b w3 ≡ (ok (offline off), w3))
    stale_recovers w w1 w2 w3 s off seen purged =
        clean_connect s w2 off w3
          (stale_of s (connect-Reason host control fs dialer b w) (ap (λ r. r.0) seen)) purged

    -- On a file system that keeps the promises of IsFileSystem: if connect finds the daemon hung,
    -- and in any later states of the system kill and then clean of the handle that it gave
    -- succeed, then connect in the state that clean left reports the daemon offline, with the data
    -- of the builder, and changes nothing.
    pub hung_recovers :
        (w w1 w2 w3 w4 w5 : W) (k : KillHandle T) (s : StaleHandle) (off : OfflineHandle)
        → connect host control fs dialer b w ≡ (ok (hung k), w1)
        → kill_daemon control k w2 ≡ (ok s, w3)
        → clean fs dialer.names.target s w4 ≡ (ok off, w5)
        → (off ≡ as_offline b) × (connect host control fs dialer b w5 ≡ (ok (offline off), w5))
    hung_recovers w w1 w2 w3 w4 w5 k s off seen killed purged =
        clean_connect s w4 off w5
          ((kill_daemon-WasEnded control k w2 s w3 killed).0
            ∙ stale_of_hung k
                (hung_of k (connect-Reason host control fs dialer b w) (ap (λ r. r.0) seen)))
          purged
