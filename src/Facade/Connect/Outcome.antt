-- ===== src/Facade/Connect/Outcome.antt =====
-- What the outcome of `connect` says of the daemon.
use knot_ops.Prelude.{ℕ, true, false, Option, none, some, ◌≡◌, refl, inl, inr, Bool-cases}
use knot_ops.Sys.Errors.{ProcessError, not_running, mismatch, reused, IoError, Result, ok, err}
use knot_ops.Sys.Process.{Host, ProcessControl, PlatformProcess, bind}
use knot_ops.Sys.Process.Bind.{IsBound, bind-IsBound}
use knot_ops.Facade.Errors.{ClientError, io}
use knot_ops.Facade.Stale.{Files, socket_path, socket_there, lock_path}
use knot_ops.Facade.Session.{ConnectedHandle}
use knot_ops.Facade.Dial.{Dialer, dial}
use knot_ops.Facade.Connect.{
  ConnectState, offline, stale, connected, hung, ClientBuilder, as_stale, as_offline, as_hung,
  read_as_u32, classified, identified, dialled, connect,
}

module _ {W T N A : Type 0} (host : Host W) (control : ProcessControl W T) (fs : Files W)
    (dialer : Dialer W N A) (b : ClientBuilder) where
  -- The lock was there, and the socket did not answer; this leaves the system in the state `w1`.
  pub record IsSilent (w w1 : W) : Type 0 where
    pub locked : fs.exists (lock_path fs b.runtime_dir) w ≡ true
    pub error : ClientError
    pub unanswered : dial dialer (socket_path fs b.runtime_dir) b.policy w ≡ (err error, w1)

  -- The reasons for each outcome of `connect`, in the state `w`.
  pub data Reason (w : W) : Result (ConnectState T) ClientError → W → Type 0 where
    answers :
        {h : ConnectedHandle} {w' : W}
        → fs.exists (lock_path fs b.runtime_dir) w ≡ true
        → dial dialer (socket_path fs b.runtime_dir) b.policy w ≡ (ok h, w')
        → Reason w (ok (connected h)) w'
    no_files :
        fs.exists (lock_path fs b.runtime_dir) w ≡ false
        → socket_there fs dialer.names.target b.runtime_dir w ≡ false
        → Reason w (ok (offline (as_offline b))) w
    only_socket :
        fs.exists (lock_path fs b.runtime_dir) w ≡ false
        → socket_there fs dialer.names.target b.runtime_dir w ≡ true
        → Reason w (ok (stale (as_stale b))) w
    no_pid :
        {w1 w' : W}
        → IsSilent w w1
        → read_as_u32 fs (lock_path fs b.runtime_dir) w1 ≡ (none, w')
        → Reason w (ok (stale (as_stale b))) w'
    dead :
        {w1 w2 w' : W} {pid : ℕ} {e : ProcessError}
        → IsSilent w w1
        → read_as_u32 fs (lock_path fs b.runtime_dir) w1 ≡ (some pid, w2)
        → bind host control pid b.expected_daemon_name w2 ≡ (err e, w')
        → ((i : IoError) → e ≡ ProcessError.io i → ⊥)
        → Reason w (ok (stale (as_stale b))) w'
    alive :
        {w1 w2 w' : W} {pid : ℕ} {process : PlatformProcess T}
        → IsSilent w w1
        → read_as_u32 fs (lock_path fs b.runtime_dir) w1 ≡ (some pid, w2)
        → IsBound host control pid b.expected_daemon_name w2 process w'
        → Reason w (ok (hung (as_hung b process))) w'
    unknown :
        {w1 w2 w' : W} {pid : ℕ} {i : IoError}
        → IsSilent w w1
        → read_as_u32 fs (lock_path fs b.runtime_dir) w1 ≡ (some pid, w2)
        → bind host control pid b.expected_daemon_name w2 ≡ (err (ProcessError.io i), w')
        → Reason w (err (io i)) w'

  classified-Reason :
      (w w1 w2 : W) (pid : ℕ) (x : Result (PlatformProcess T) ProcessError × W)
      → IsSilent w w1
      → read_as_u32 fs (lock_path fs b.runtime_dir) w1 ≡ (some pid, w2)
      → bind host control pid b.expected_daemon_name w2 ≡ x
      → Reason w (classified host control fs dialer b x).0 (classified host control fs dialer b x).1
  unfolding classified
  classified-Reason w w1 w2 pid (ok process, w3) silent read bound =
      alive silent read (bind-IsBound host control pid b.expected_daemon_name w2 process w3 bound)
  classified-Reason w w1 w2 pid (err not_running, w3) silent read bound =
      dead silent read bound (λ i e. cc)
  classified-Reason w w1 w2 pid (err reused, w3) silent read bound =
      dead silent read bound (λ i e. cc)
  classified-Reason w w1 w2 pid (err (mismatch expected actual), w3) silent read bound =
      dead silent read bound (λ i e. cc)
  classified-Reason w w1 w2 pid (err (ProcessError.io i), w3) silent read bound =
      unknown silent read bound

  identified-Reason :
      (w w1 : W) (x : Option ℕ × W)
      → IsSilent w w1
      → read_as_u32 fs (lock_path fs b.runtime_dir) w1 ≡ x
      → Reason w (identified host control fs dialer b x).0 (identified host control fs dialer b x).1
  unfolding identified
  identified-Reason w w1 (none, w2) silent read = no_pid silent read
  identified-Reason w w1 (some pid, w2) silent read =
      classified-Reason w w1 w2 pid (bind host control pid b.expected_daemon_name w2) silent read
        refl

  dialled-Reason :
      (w : W) (x : Result ConnectedHandle ClientError × W)
      → fs.exists (lock_path fs b.runtime_dir) w ≡ true
      → dial dialer (socket_path fs b.runtime_dir) b.policy w ≡ x
      → Reason w (dialled host control fs dialer b x).0 (dialled host control fs dialer b x).1
  unfolding dialled
  dialled-Reason w (ok h, w1) locked answered = answers locked answered
  dialled-Reason w (err e, w1) locked unanswered =
      identified-Reason w w1 (read_as_u32 fs (lock_path fs b.runtime_dir) w1)
        (record { locked = locked; error = e; unanswered = unanswered }) refl

  -- Every outcome of connect has its reason. Connected: there was a lock, and the socket answered.
  -- Offline: neither lock nor, outside Windows, socket. Hung: a lock, a silent socket, and the
  -- process of the id in the lock was bound under the expected name. Stale: outside Windows a
  -- socket without a lock; or a lock, a silent socket, and no readable process id or a bind that
  -- failed otherwise than with io. An error: the io error of that bind.
  pub connect-Reason :
      (w : W)
      → Reason w (connect host control fs dialer b w).0 (connect host control fs dialer b w).1
  unfolding connect
  connect-Reason w = elim (Bool-cases (fs.exists (lock_path fs b.runtime_dir) w)) [
    | inl locked ↦
        rw locked
          (dialled-Reason w (dial dialer (socket_path fs b.runtime_dir) b.policy w) locked refl)
    | inr unlocked ↦ elim (Bool-cases (socket_there fs dialer.names.target b.runtime_dir w)) [
      | inl there ↦ rw (unlocked, there) (only_socket unlocked there)
      | inr absent ↦ rw (unlocked, absent) (no_files unlocked absent)
    ]
  ]
