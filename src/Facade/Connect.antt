-- ===== src/Facade/Connect.antt =====
-- sdk/facade/src/builder.rs and client.rs: how a client finds out what state the daemon
-- is in; with `ConnectState` of states.rs.
pub mod Outcome
use knot_ops.Prelude.{ℕ, Bool, true, false, Text, Option, none, some, if◌then◌else◌}
use knot_ops.Sys.Errors.{
  ProcessError, not_running, mismatch, reused, IoError, Result, ok, err, Action,
}
use knot_ops.Sys.Process.{Host, ProcessControl, PlatformProcess, bind}
use knot_ops.Core.Consts.{Build}
use knot_ops.Core.Paths.{
  Environment, daemon_runtime_dir, daemon_binary_path, knot_daemon_binary_name,
}
use knot_ops.Facade.Errors.{ClientError, io, path_resolution}
use knot_ops.Facade.Policies.{TimeoutPolicy, PolicyConfig, default_policy}
use knot_ops.Facade.Stale.{Files, StaleHandle, OfflineHandle, socket_path, socket_there, lock_path}
use knot_ops.Facade.Session.{ConnectedHandle}
use knot_ops.Facade.Kill.{KillHandle}
use knot_ops.Facade.Pid.{pid_of_text}
use knot_ops.Facade.Dial.{Dialer, dial}

pub data ConnectState (T : Type 0) : Type 0 where
  offline : OfflineHandle → ConnectState T
  stale : StaleHandle → ConnectState T
  connected : ConnectedHandle → ConnectState T
  hung : KillHandle T → ConnectState T

pub record ClientBuilder : Type 0 where
  pub runtime_dir : Text
  pub daemon_path : Text
  pub expected_daemon_name : Text
  pub policy : PolicyConfig

unfoldable pub new : Build → Environment → Result ClientBuilder ClientError
new build env = elim (daemon_binary_path build env) [
  | none ↦ err path_resolution
  | some path ↦ ok (record {
    runtime_dir = daemon_runtime_dir build env;
    daemon_path = path;
    expected_daemon_name = knot_daemon_binary_name build;
    policy = default_policy;
  })
]

unfoldable pub with_timeout : TimeoutPolicy → ClientBuilder → ClientBuilder
with_timeout timeout b = record b { policy = record b.policy { timeout = timeout } }

unfoldable pub with_daemon_path : Text → ClientBuilder → ClientBuilder
with_daemon_path path b = record b { daemon_path = path }

unfoldable pub with_runtime_dir : Text → ClientBuilder → ClientBuilder
with_runtime_dir path b = record b { runtime_dir = path }

unfoldable pub with_expected_daemon_name : Text → ClientBuilder → ClientBuilder
with_expected_daemon_name name b = record b { expected_daemon_name = name }

-- The handles that `connect` makes of the builder.
unfoldable pub as_stale : ClientBuilder → StaleHandle
as_stale b = record { runtime_dir = b.runtime_dir; daemon_path = b.daemon_path; policy = b.policy }

unfoldable pub as_offline : ClientBuilder → OfflineHandle
as_offline b = record {
  runtime_dir = b.runtime_dir;
  daemon_path = b.daemon_path;
  policy = b.policy;
}

unfoldable pub as_hung : {T : Type 0} → ClientBuilder → PlatformProcess T → KillHandle T
as_hung b process = record {
  runtime_dir = b.runtime_dir;
  process = process;
  daemon_path = b.daemon_path;
  policy = b.policy;
}

module _ {W : Type 0} (fs : Files W) where
  -- `read_as_u32`
  pid_of : Result Text IoError × W → Option ℕ × W
  pid_of (ok content, w) = (pid_of_text content, w)
  pid_of (err e, w) = (none, w)

  unfoldable pub read_as_u32 : Text → W → Option ℕ × W
  unfolding pid_of
  read_as_u32 path w = pid_of (fs.read_to_string path w)

module _ {W T N A : Type 0} (host : Host W) (control : ProcessControl W T) (fs : Files W)
    (dialer : Dialer W N A) where
  -- From the answer of `Process::bind` on.
  classified :
      ClientBuilder
      → Result (PlatformProcess T) ProcessError × W
      → Result (ConnectState T) ClientError × W
  unfolding as_hung as_stale
  classified b (ok process, w) = (ok (hung (as_hung b process)), w)
  classified b (err not_running, w) = (ok (stale (as_stale b)), w)
  classified b (err reused, w) = (ok (stale (as_stale b)), w)
  classified b (err (mismatch expected actual), w) = (ok (stale (as_stale b)), w)
  classified b (err (ProcessError.io e), w) = (err (ClientError.io e), w)

  -- From the process id on.
  identified : ClientBuilder → Option ℕ × W → Result (ConnectState T) ClientError × W
  unfolding classified
  identified b (some pid, w) = classified b (bind host control pid b.expected_daemon_name w)
  identified b (none, w) = (ok (stale (as_stale b)), w)

  -- From the answer of the socket on.
  dialled :
      ClientBuilder
      → Result ConnectedHandle ClientError × W
      → Result (ConnectState T) ClientError × W
  unfolding identified read_as_u32
  dialled b (ok handle, w) = (ok (connected handle), w)
  dialled b (err e, w) = identified b (read_as_u32 fs (lock_path fs b.runtime_dir) w)

  unfoldable pub connect : ClientBuilder → Action W ClientError (ConnectState T)
  unfolding dialled as_offline
  connect b w =
      if fs.exists (lock_path fs b.runtime_dir) w
      then dialled b (dial dialer (socket_path fs b.runtime_dir) b.policy w)
      else if socket_there fs dialer.names.target b.runtime_dir w
      then (ok (stale (as_stale b)), w)
      else (ok (offline (as_offline b)), w)

  -- `KnotClient::connect`
  connect_built : Result ClientBuilder ClientError → Action W ClientError (ConnectState T)
  unfolding connect
  connect_built (ok b) w = connect b w
  connect_built (err e) w = (err e, w)

  unfoldable pub connect_default : Environment → Action W ClientError (ConnectState T)
  unfolding connect_built new
  connect_default env = connect_built (new dialer.names.target env)
