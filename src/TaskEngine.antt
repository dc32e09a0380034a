-- ===== src/TaskEngine.antt =====
-- agent/engine/docker_task_engine.go: the engine over all tasks. `Add` has the tasks that it takes up
-- and lets go, `Pull` whether and how an image is pulled, `Synchronize` what a restart of the agent does
-- to a container; the theorems stand in the other children.
mod Add
mod Pull
mod Synchronize
pub mod Admission
pub mod Once
pub mod Restart
mod Examples
unfoldable pub use Add.*
unfoldable pub use Pull.*
unfoldable pub use Synchronize.*
