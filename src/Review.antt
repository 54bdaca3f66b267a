-- ===== src/Review.antt =====
-- src/pe_review_agent/review: the parts of the review that decide what is published.
pub mod Decision
pub mod Lineage
pub mod Chunking
pub mod Scheduling
pub mod Batches
pub mod Verification
pub mod Validation
