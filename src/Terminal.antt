-- ===== src/Terminal.antt =====
-- components/shared/terminal: progress reporting and task orchestration.
pub mod Console
pub mod Style
pub mod Layout
pub mod Report
pub mod Renderer
pub mod Step
pub mod Task
pub mod Builder
pub mod Sequence
pub mod Engine
mod Scenarios
