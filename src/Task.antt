-- ===== src/Task.antt =====
-- Tasks: agent/api/task/task.go. `Types` holds the record and its simple operations, `Update` how
-- statuses follow from those of the containers, `Setup` what an added task's
-- containers depend on, `PauseSetup` its pause containers; the theorems stand in the other children.
mod Types
mod Update
mod Setup
mod PauseSetup
pub mod Ordering
pub mod Proxy
pub mod Pause
pub mod Known
pub mod Desired
mod Examples
unfoldable pub use Types.*
unfoldable pub use Update.*
unfoldable pub use Setup.*
unfoldable pub use PauseSetup.*
