-- ===== src/Tests.antt =====
-- Concrete runs of the modelled code, and the theorems applied to them.
pub mod Scenario
pub mod Jobs
pub mod Store
pub mod Review
pub mod Scheduling
pub mod Batches
pub mod Validation
pub mod Gerrit
pub mod Progress
pub mod Service
