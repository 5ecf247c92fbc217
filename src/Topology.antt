-- ===== src/Topology.antt =====
-- src/domain.rs: the walk of `validate` over the graph.
pub mod Counts
pub mod Relax
pub mod Walk
pub mod Order
pub mod Accepts
pub mod Sound
pub mod Exact
