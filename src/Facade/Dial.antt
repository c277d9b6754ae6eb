-- ===== src/Facade/Dial.antt =====
-- `ConnectedHandle::new` of sdk/facade/src/handles/connected.rs: a connection over the local socket.
use knot_ops.Prelude.{Text, codes}
use knot_ops.Sys.Errors.{IoError, Result, ok, err, Action}
use knot_ops.Grpc.Resolver.{SocketNames}
use knot_ops.Grpc.Connector
use knot_ops.Facade.Errors.{ClientError, transport}
use knot_ops.Facade.Policies.{PolicyConfig}
use knot_ops.Facade.Session.{ConnectedHandle}

-- What interprocess and tonic do: `connect` opens a stream `A`, `connect_with_connector` makes a
-- channel by means of a connector, which it gives the URI of the endpoint.
pub record Dialer (W N A : Type 0) : Type 0 where
  pub names : SocketNames N
  pub connect : N → Action W IoError A
  pub connect_with_connector : Text → (Text → Action W IoError A) → Action W Text (Unit {0})

module _ {W N A : Type 0} (dialer : Dialer W N A) where
  connected : PolicyConfig → Result (Unit {0}) Text × W → Result ConnectedHandle ClientError × W
  connected policy (ok channel, w) = (ok (record { policy = policy }), w)
  connected policy (err e, w) = (err (transport e), w)

  unfoldable pub dial : Text → PolicyConfig → Action W ClientError ConnectedHandle
  unfolding connected
  dial socket_path policy w = connected policy (
      dialer.connect_with_connector (codes "http://[::]")
        (λ uri. Connector.call dialer.names dialer.connect (Connector.new socket_path) uri) w)
