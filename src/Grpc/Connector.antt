-- ===== src/Grpc/Connector.antt =====
-- sdk/grpc/src/connector.rs: each call opens a connection to the one socket.
use knot_ops.Prelude.{Text}
use knot_ops.Sys.Errors.{IoError, Result, ok, err, Action}
use knot_ops.Grpc.Resolver.{SocketNames, resolve}

pub record IpcConnector : Type 0 where
  pub socket_path : Text

unfoldable pub new : Text → IpcConnector
new path = record { socket_path = path }

-- `tower::Service::poll_ready`
unfoldable pub poll_ready : {W : Type 0} → IpcConnector → Action W IoError (Unit {0})
poll_ready c w = (ok tt, w)

-- `A` is the type of a stream; `connect` is `LocalSocketStream::connect`.
module _ {W N A : Type 0} (names : SocketNames N) (connect : N → Action W IoError A) where
  connect_to : Result N IoError → Action W IoError A
  connect_to (ok name) w = connect name w
  connect_to (err e) w = (err e, w)

  -- The URI, a text here, is ignored.
  unfoldable pub call : IpcConnector → Text → Action W IoError A
  unfolding connect_to
  call c uri = connect_to (resolve names c.socket_path)
