-- ===== src/Facade/Client.antt =====
-- sdk/facade/src/guarded_client.rs: the daemon's client with the timeouts of the policy and the errors
-- of the crate.
use knot_ops.Prelude.{ℕ, Text, codes, Option, none, some, ◌++◌}
use knot_ops.Sys.Errors.{Result, ok, err, Action, ◌>>=◌}
use knot_ops.Facade.Errors.{Status, aborted, ClientError, protocol, contract, wrong_revision}
use knot_ops.Facade.Policies.{PolicyConfig}
use knot_ops.Facade.Protocol.{
  HandshakeRequest, HandshakeResponse, CommitRequest, CommitResponse, UpRequest, DownRequest,
  StatusRequest, StatusResponse, Request, Streamed, Daemon,
}

unfoldable pub request : {R : Type 0} → R → Option ℕ → Request R
request message timeout = record { message = message; timeout = timeout }

-- What becomes of a failed call: an aborted one was made for a wrong revision.
unfoldable pub refused : Status → ClientError
refused status = elim status.code [ aborted ↦ wrong_revision | _ ↦ protocol status ]

-- `TaskHandle` of handles/task.rs. `client` is a clone of the daemon's client, of which there is one.
pub record TaskHandle : Type 0 where
  pub task_id : Text
  pub events : ℕ

unfoldable pub metadata_task_id_header : Text
metadata_task_id_header = codes "x-task-id"

module _ {W : Type 0} where
  unfoldable pub call_rpc : {A : Type 0} → Result A Status × W → Result A ClientError × W
  unfolding refused
  call_rpc (ok response, w) = (ok response, w)
  call_rpc (err status, w) = (err (refused status), w)

  -- The id that the daemon gave to a task, from `execute_task_cmd`.
  named_task : Streamed → Action W ClientError TaskHandle
  unfolding metadata_task_id_header
  named_task stream w = elim stream.task_id [
    | none ↦ (
      err (
          contract
            (codes "daemon did not return an '" ++ (metadata_task_id_header ++ codes "' header"))),
      w,
    )
    | some id ↦ (ok (record { task_id = id; events = stream.events }), w)
  ]

  unfoldable pub execute_task_cmd : Result Streamed Status × W → Result TaskHandle ClientError × W
  unfolding call_rpc named_task
  execute_task_cmd answer = ((λ w. call_rpc answer) >>= named_task) answer.1

module _ {W M S : Type 0} (server : Daemon W M S) (policy : PolicyConfig) where
  unfoldable pub handshake : HandshakeRequest M → Action W ClientError HandshakeResponse
  unfolding call_rpc request
  handshake req w = call_rpc (server.handshake (request req policy.timeout.long_streams) w)

  unfoldable pub commit : CommitRequest M → Action W ClientError CommitResponse
  unfolding call_rpc request
  commit req w = call_rpc (server.commit (request req policy.timeout.long_streams) w)

  unfoldable pub up : UpRequest → Action W ClientError TaskHandle
  unfolding execute_task_cmd request
  up req w = execute_task_cmd (server.up (request req policy.timeout.long_streams) w)

  unfoldable pub down : DownRequest → Action W ClientError TaskHandle
  unfolding execute_task_cmd request
  down req w = execute_task_cmd (server.down (request req policy.timeout.long_streams) w)

  unfoldable pub status : StatusRequest → Action W ClientError (StatusResponse S)
  unfolding call_rpc request
  status req w = call_rpc (server.status (request req (some policy.timeout.fast_commands)) w)
