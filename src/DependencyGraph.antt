-- ===== src/DependencyGraph.antt =====
-- agent/engine/dependencygraph/graph.go: which containers may move. `Conditions` holds the tests of
-- one dependency, `Resolution` what `DependenciesAreResolved` does, and `Validity` the check of a
-- whole task; the theorems stand in the other children.
mod Conditions
mod Resolution
mod Validity
pub mod Names
pub mod Monotone
pub mod Backward
pub mod Order
pub mod Resolved
pub mod StopOrder
mod Examples
unfoldable pub use Conditions.*
unfoldable pub use Resolution.*
unfoldable pub use Validity.*
