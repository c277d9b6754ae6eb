-- ===== src/Facade/Scenarios/Sessions.antt =====
-- A daemon that knows a workspace in another version, and what the theorems about sessions say of it.
use knot_ops.Prelude.{ℕ, suc, Text, codes, some, [], true, false, ◌≡◌, refl}
use knot_ops.Sys.Errors.{ok, pure}
use knot_ops.Facade.Policies.{default_policy}
use knot_ops.Facade.Protocol.{HandshakeResponse, CommitResponse, Daemon}
use knot_ops.Facade.Client
use knot_ops.Facade.Client.{call_rpc, request}
use knot_ops.Facade.Session.{
  ConnectedHandle, UncommittedHandle, uncommitted, opened, sync_state, handshake, Committed, commit,
  up,
}
use knot_ops.Facade.Session.Revision.{
  greeting, control_for, commit_request, parts, handshake-parts, commit-up,
}

abbrev greeted : HandshakeResponse
greeted = record { state = 2; revision = codes "r1" }

abbrev accepted : CommitResponse
accepted = record {
  revision = codes "r2";
  services_added = [];
  services_removed = [];
  services_changed = [];
}

-- The world counts the commits; a manifest is a number.
abbrev server : Daemon ℕ ℕ ℕ
server = record {
  handshake = λ r. pure greeted;
  commit = λ r w. (ok accepted, suc w);
  up = λ r. pure (record { task_id = some (codes "t"); events = 0 });
  down = λ r. pure (record { task_id = some (codes "t"); events = 0 });
  status = λ r. pure (record { services = []; has_drifted = false; has_orphaned = false });
  cancel_task = λ id. pure (record { cancelled = true; code = 1 });
}

abbrev connection : ConnectedHandle
connection = record { policy = default_policy }

abbrev id : Text
id = codes "home"

greets :
    Client.handshake server default_policy (greeting server connection id 5) 0 ≡ (ok greeted, 0)
unfolding Client.handshake call_rpc
greets = refl

handshake-parts_example :
    parts (handshake server connection id 5 0).0
    ≡ some (control_for server connection id 5 greeted, some 5)
handshake-parts_example = handshake-parts server connection id 5 0 greeted 0 greets

abbrev waiting : UncommittedHandle ℕ
waiting = record { controller = control_for server connection id 5 greeted; to_commit = 5 }

opens : handshake server connection id 5 0 ≡ (ok (uncommitted waiting), 0)
unfolding handshake opened sync_state Client.handshake call_rpc
opens = refl

commits :
    Client.commit server default_policy (commit_request server connection id 5 greeted) 0
    ≡ (ok accepted, 1)
unfolding Client.commit call_rpc
commits = refl

commit-up_example :
    (c : Committed) × (commit server waiting 0 ≡ (ok c, 1))
    × (up server c.control [] false 1
        ≡ Client.up server default_policy
            (record {
              services = [];
              expected_revision = codes "r2";
              workspace_id = id;
              prune = false;
            })
            1)
commit-up_example =
    commit-up server connection id 5 0 0 0 1 1 greeted waiting accepted [] false greets opens
      commits
