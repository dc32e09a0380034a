-- ===== src/ImageManager.antt =====
-- agent/engine/image and agent/engine/docker_image_manager.go: which images the containers use, and
-- which ones are deleted. `State` has an image's state, `References` the manager and what containers
-- do to it, `Cleanup` one cycle of the clean-up; the theorems stand in the other children.
mod State
mod References
mod Cleanup
mod NonEcs
pub mod Lists
mod Safe
pub mod Kept
mod Distinct
pub mod Used
pub mod Limit
pub mod Total
mod Examples
unfoldable pub use State.*
unfoldable pub use References.*
unfoldable pub use Cleanup.*
unfoldable pub use NonEcs.*
