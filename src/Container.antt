-- ===== src/Container.antt =====
-- Containers: agent/api/container. The types, the operations on statuses, and those on
-- dependencies stand in three children, whose names are passed on here; the theorems about them in
-- the others.
mod Types
mod State
mod Dependencies
pub mod Progress
mod Examples
unfoldable pub use Types.*
unfoldable pub use State.*
unfoldable pub use Dependencies.*
