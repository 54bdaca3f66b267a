-- ===== src/Service.antt =====
-- src/pe_review_agent/service.py, with retry.py and voting.py: what a worker does with its job.
pub mod Backoff
pub mod Retry
pub mod Voting
