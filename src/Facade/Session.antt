-- ===== src/Facade/Session.antt =====
-- sdk/facade/src/handles: connected.rs, control.rs, uncommitted.rs and task.rs, with `DaemonSession` of
-- states.rs. The daemon's client is shared by all handles: it is the parameter `server`.
pub mod Revision
use knot_ops.Prelude.{ℕ, zero, suc, Bool, Text, codes, decimal, Option, none, some, List, [], ◌++◌}
use knot_ops.Sys.Errors.{Result, ok, err, map_err, Action, ◌>>=◌, pure, raise}
use knot_ops.Facade.Errors.{Status, ClientError, protocol, contract}
use knot_ops.Facade.Policies.{PolicyConfig}
use knot_ops.Facade.Protocol.{
  HandshakeRequest, HandshakeResponse, CommitRequest, CommitResponse, UpRequest, DownRequest,
  StatusRequest, StatusResponse, CancelTaskResponse, Daemon,
}
use knot_ops.Facade.Client
use knot_ops.Facade.Client.{TaskHandle}

pub record ConnectedHandle : Type 0 where
  pub policy : PolicyConfig

pub record ControlHandle : Type 0 where
  pub workspace_id : Text
  pub expected_revision : Text
  pub policy : PolicyConfig

pub record UncommittedHandle (M : Type 0) : Type 0 where
  pub controller : ControlHandle
  pub to_commit : M

pub data DaemonSession (M : Type 0) : Type 0 where
  ready : ControlHandle → DaemonSession M
  uncommitted : UncommittedHandle M → DaemonSession M

-- `ManifestSyncState`, and its `try_from`.
pub data ManifestSyncState : Type 0 where
  unspecified in_sync out_of_sync unregistered : ManifestSyncState

unfoldable pub sync_state : ℕ → Option ManifestSyncState
sync_state zero = some unspecified
sync_state (suc zero) = some in_sync
sync_state (suc (suc zero)) = some out_of_sync
sync_state (suc (suc (suc zero))) = some unregistered
sync_state (suc (suc (suc (suc n)))) = none

-- `cancel_task_response::Code`, and its `try_from`.
pub data CancelCode : Type 0 where
  unspecified success not_found already_completed already_cancelling : CancelCode

unfoldable pub cancel_code : ℕ → Option CancelCode
cancel_code zero = some CancelCode.unspecified
cancel_code (suc zero) = some success
cancel_code (suc (suc zero)) = some not_found
cancel_code (suc (suc (suc zero))) = some already_completed
cancel_code (suc (suc (suc (suc zero)))) = some already_cancelling
cancel_code (suc (suc (suc (suc (suc n))))) = none

-- The session that a handshake's answer opens.
unfoldable pub opened :
    {M : Type 0}
    → ControlHandle
    → M
    → ℕ
    → Option ManifestSyncState
    → Result (DaemonSession M) ClientError
opened controller manifest state (some out_of_sync) =
    ok (uncommitted (record { controller = controller; to_commit = manifest }))
opened controller manifest state (some unregistered) =
    ok (uncommitted (record { controller = controller; to_commit = manifest }))
opened controller manifest state (some in_sync) = ok (ready controller)
opened controller manifest state (some ManifestSyncState.unspecified) =
    err (contract (codes "unexpected workspace state: " ++ decimal state))
opened controller manifest state none =
    err (contract (codes "unexpected workspace state: " ++ decimal state))

pub record CommitSummary : Type 0 where
  pub services_added : List Text
  pub services_removed : List Text
  pub services_changed : List Text

-- `CommitSummary::from`
unfoldable pub summary_of : CommitResponse → CommitSummary
summary_of r = record {
  services_added = r.services_added;
  services_removed = r.services_removed;
  services_changed = r.services_changed;
}

pub record Committed : Type 0 where
  pub control : ControlHandle
  pub summary : CommitSummary

pub record CommitError (M : Type 0) : Type 0 where
  pub handle : UncommittedHandle M
  pub source : ClientError

unfoldable pub set_revision : Text → ControlHandle → ControlHandle
set_revision revision h = record h { expected_revision = revision }

unfoldable pub discard : {M : Type 0} → UncommittedHandle M → ControlHandle
discard h = h.controller

module _ {W M S : Type 0} (server : Daemon W M S) where
  unfoldable pub handshake : ConnectedHandle → Text → M → Action W ClientError (DaemonSession M)
  unfolding opened sync_state
  handshake h workspace_id manifest =
      Client.handshake server h.policy
        (record { workspace_id = workspace_id; manifest = some manifest })
      >>= λ res w. (
        opened
            (record {
              workspace_id = workspace_id;
              expected_revision = res.revision;
              policy = h.policy;
            })
            manifest res.state (sync_state res.state),
        w,
      )

  unfoldable pub up : ControlHandle → List Text → Bool → Action W ClientError TaskHandle
  up h services prune = Client.up server h.policy (record {
    services = services;
    expected_revision = h.expected_revision;
    workspace_id = h.workspace_id;
    prune = prune;
  })

  unfoldable pub down : ControlHandle → List Text → Action W ClientError TaskHandle
  down h services =
      Client.down server h.policy (record { services = services; workspace_id = h.workspace_id })

  unfoldable pub status : ControlHandle → Action W ClientError (StatusResponse S)
  status h = Client.status server h.policy (record { workspace_id = h.workspace_id; services = [] })

  unfoldable pub recheck : ControlHandle → M → Action W ClientError (DaemonSession M)
  unfolding handshake
  recheck h manifest = handshake (record { policy = h.policy }) h.workspace_id manifest

  -- The handle after the request, as the `&mut self` of `inner_commit` leaves it.
  committed :
      UncommittedHandle M
      → Result CommitResponse ClientError × W
      → Result Committed (CommitError M) × W
  unfolding set_revision summary_of
  committed h (ok res, w) = (
    ok (record { control = set_revision res.revision h.controller; summary = summary_of res }),
    w,
  )
  committed h (err e, w) = (err (record { handle = h; source = e }), w)

  unfoldable pub commit : UncommittedHandle M → Action W (CommitError M) Committed
  unfolding committed
  commit h w = committed h (
      Client.commit server h.controller.policy
        (record {
          workspace_id = h.controller.workspace_id;
          expected_revision = h.controller.expected_revision;
          manifest = some h.to_commit;
        })
        w)

  -- What the answer to a cancellation means.
  cancel_outcome : CancelTaskResponse → Option CancelCode → Result CancelCode ClientError
  cancel_outcome r (some code) = ok code
  cancel_outcome r none =
      err (contract (codes "daemon returned unknown cancellation code: " ++ decimal r.code))

  -- The daemon's client is called as it is here, without the guard.
  answered : Result CancelTaskResponse Status × W → Result CancelCode ClientError × W
  unfolding cancel_outcome cancel_code
  answered (ok r, w) = (cancel_outcome r (cancel_code r.code), w)
  answered (err status, w) = (err (protocol status), w)

  unfoldable pub cancel : TaskHandle → Action W ClientError CancelCode
  unfolding answered
  cancel h w = answered (server.cancel_task h.task_id w)
