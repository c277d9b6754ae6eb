-- ===== src/Terminal/Task.antt =====
-- task.rs and task/stage.rs: a task made of stages, and the state machine that ends it.
mod Stages
mod State
mod Ops
pub mod Settle
pub mod Outcome
pub mod Inv
pub mod Bulk
pub mod Failure
pub mod Results
pub mod Restart
pub mod Trace
pub mod Spec
pub mod Refine
pub mod Sweep
pub mod Replay
pub mod Quiet
pub mod Steady
pub mod Panics
pub mod Nodes
pub mod Anchor
pub mod Standing
pub use Stages.{Stage, TaskEntry, stage, extra}
unfoldable pub use Stages.{entry_renderer, find_stage, set_stage, stages, ids}
pub use State.{Task, Live}
unfoldable pub use State.{new, set_completed, update_state}
unfoldable pub use Ops.*
