-- ===== src/ManagedTask.antt =====
-- agent/engine/task_manager.go: the goroutine that owns a task. `Types` holds its state, `Events`
-- and `ResourceEvents` the handlers of its three channels, `Messages` the channels, and `Progress` what it
-- starts next; the theorems stand in the other children.
mod Types
mod Events
mod ResourceEvents
mod Progress
mod Messages
pub mod Writes
pub mod Known
pub mod DesiredChange
pub mod Groups
pub mod StopGroup
pub mod Next
pub mod Move
pub mod GivesUp
mod Examples
unfoldable pub use Types.*
unfoldable pub use Events.*
unfoldable pub use ResourceEvents.*
unfoldable pub use Progress.*
unfoldable pub use Messages.*
