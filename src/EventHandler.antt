-- ===== src/EventHandler.antt =====
-- agent/eventhandler/task_handler.go and task_handler_types.go: how the events of tasks and containers
-- reach the backend. `Events` has the events and the statuses that were sent, `Sending` the list of a
-- task's events and the submission of its first one, `Handler` the handler's maps, and `Steps` the runs of
-- its methods and of the goroutines that it starts; the theorems stand in the other children.
mod Events
mod Sending
mod Handler
mod Steps
pub mod Drained
mod Senders
pub mod Served
pub mod Batched
mod Examples
unfoldable pub use Events.*
unfoldable pub use Sending.*
unfoldable pub use Handler.*
unfoldable pub use Steps.*
