-- ===== src/Status.antt =====
-- The statuses of containers and tasks: agent/api/container/status and agent/api/task/status.
pub mod ContainerStatus
pub mod TaskStatus
pub mod Mapping
mod Json
mod Examples
