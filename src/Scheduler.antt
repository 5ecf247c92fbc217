-- ===== src/Scheduler.antt =====
-- src/scheduler.rs: the reference scheduler. `State` holds its records and the ready heap, `Retry` the
-- backoff, `Submit`, `Claim` and `Lease` the operations, `Run` their composition.
pub mod State
pub mod Retry
pub mod Jobs
pub mod Reap
pub mod Release
pub mod Cas
pub mod Machine
pub mod Acts
pub mod Admission
pub mod Edges
pub mod Roots
pub mod Run
pub mod Heap
pub mod Late
pub mod Exclusive
pub mod Backoff
pub mod Views
pub mod Accept
pub mod Submit
pub mod Claim
pub mod Lease
