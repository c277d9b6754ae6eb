-- ===== src/Grpc.antt =====
-- components/sdk/grpc: sockets of the local machine as a transport.
pub mod Resolver
pub mod Connector
pub mod Incoming
pub mod Acceptor
mod Scenarios
