-- ===== src/Facade.antt =====
-- components/sdk/facade: how a client finds, starts and ends the daemon.
pub mod Policies
pub mod Errors
pub mod Stale
pub mod Protocol
pub mod Client
pub mod Session
pub mod Pid
pub mod Dial
pub mod Offline
pub mod Kill
pub mod Connect
pub mod Recovery
mod Scenarios
