-- ===== src/Facade/Protocol.antt =====
-- The messages of proto/knot/v1 that sdk/facade uses, and the daemon's client that tonic generates
-- from it. The outside world is `W`; `M` stands for a `WorkspaceManifest`, which is only passed on, and
-- `S` for what a streamed event or a service's status carries.
use knot_ops.Prelude.{ℕ, Bool, Text, Option, List}
use knot_ops.Sys.Errors.{Action}
use knot_ops.Facade.Errors.{Status}

pub record HandshakeRequest (M : Type 0) : Type 0 where
  pub workspace_id : Text
  pub manifest : Option M

-- `state` is an open enumeration, any number.
pub record HandshakeResponse : Type 0 where
  pub state : ℕ
  pub revision : Text

pub record CommitRequest (M : Type 0) : Type 0 where
  pub workspace_id : Text
  pub expected_revision : Text
  pub manifest : Option M

pub record CommitResponse : Type 0 where
  pub revision : Text
  pub services_added : List Text
  pub services_removed : List Text
  pub services_changed : List Text

pub record UpRequest : Type 0 where
  pub services : List Text
  pub expected_revision : Text
  pub workspace_id : Text
  pub prune : Bool

pub record DownRequest : Type 0 where
  pub services : List Text
  pub workspace_id : Text

pub record StatusRequest : Type 0 where
  pub workspace_id : Text
  pub services : List Text

pub record StatusResponse (S : Type 0) : Type 0 where
  pub services : List S
  pub has_drifted : Bool
  pub has_orphaned : Bool

pub record CancelTaskResponse : Type 0 where
  pub cancelled : Bool
  pub code : ℕ

-- `tonic::Request`: a message and its timeout.
pub record Request (R : Type 0) : Type 0 where
  pub message : R
  pub timeout : Option ℕ

-- A streamed `tonic::Response`: the task id among its metadata, if that is readable text, and a number
-- for the stream.
pub record Streamed : Type 0 where
  pub task_id : Option Text
  pub events : ℕ

-- `DaemonServiceClient`
pub record Daemon (W M S : Type 0) : Type 0 where
  pub handshake : Request (HandshakeRequest M) → Action W Status HandshakeResponse
  pub commit : Request (CommitRequest M) → Action W Status CommitResponse
  pub up : Request UpRequest → Action W Status Streamed
  pub down : Request DownRequest → Action W Status Streamed
  pub status : Request StatusRequest → Action W Status (StatusResponse S)
  pub cancel_task : Text → Action W Status CancelTaskResponse
