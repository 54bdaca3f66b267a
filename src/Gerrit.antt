-- ===== src/Gerrit.antt =====
-- src/pe_review_agent/gerrit: what Gerrit answers, as far as the vote publisher reads it.
pub mod Observation
