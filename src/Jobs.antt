-- ===== src/Jobs.antt =====
-- src/pe_review_agent/jobs: the durable queue of review jobs.
pub mod StateMachine
pub mod Rows
pub mod Store
pub mod Votes
pub mod History
pub mod Policy
pub mod Progress
