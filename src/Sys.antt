-- ===== src/Sys.antt =====
-- components/sdk/sys: processes of the operating system.
pub mod Errors
pub mod Names
pub mod Process
pub mod Linux
pub mod Windows
pub mod Macos
pub mod Sample
mod Scenarios
