-- ===== src/Tests.antt =====
-- Runs at concrete inputs, and instances of the theorems.
pub mod Samples
pub mod Runs
pub mod Instances
pub mod Checks
pub mod StoreSamples
pub mod StoreRuns
pub mod StoreChecks
