-- ===== src/Core.antt =====
-- components/sdk/core: names, paths and texts that the other crates share.
pub mod Consts
pub mod Paths
pub mod Utils
mod Scenarios
