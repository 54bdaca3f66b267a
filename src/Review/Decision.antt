-- ===== src/Review/Decision.antt =====
-- src/pe_review_agent/review/project_policy.py: the vote that follows a review. Only what the
-- decision reads of a ReviewResult is kept.
use pe_review_agent.Jobs.Rows.{
  ProjectReviewPolicy, findings_present, legacy_job_without_project_policy, project_voting_disabled,
  review_skipped, zero_findings,
}
use pe_review_agent.Jobs.Votes.{VoteDecision}
use pe_review_agent.Prelude.{
  Bool, Option, arith, false, if◌then◌else◌, ltb, none, not, refl, some, true, ℕ, ◌==◌, ◌||◌, ◌↔◌,
  ◌≡◌,
}

-- The metadata value `validated_finding_count`: missing or of another type, or a number.
pub data FindingCount : Type 0 where
  not_an_int : FindingCount
  negative : FindingCount
  counted : ℕ → FindingCount

pub record ReviewOutcome : Type 0 where
  pub skipped_reason : Bool
  pub skipped_no_reviewable_text : Bool
  pub validated_finding_count : FindingCount
  pub findings : ℕ

unfoldable pub finding_total : ReviewOutcome → ℕ
finding_total outcome = elim outcome.validated_finding_count [
  | not_an_int ↦ outcome.findings
  | negative ↦ outcome.findings
  | counted n ↦ if ltb n outcome.findings then outcome.findings else n
]

-- `decide_code_review_vote`
unfoldable pub decide_code_review_vote : Option ProjectReviewPolicy → ReviewOutcome → VoteDecision
unfolding finding_total
decide_code_review_vote none outcome = record {
  value = none;
  reason = legacy_job_without_project_policy;
  finding_count = none;
}
decide_code_review_vote (some policy) outcome =
    if not policy.auto_code_review
    then record { value = none; reason = project_voting_disabled; finding_count = none }
    else if outcome.skipped_reason || outcome.skipped_no_reviewable_text
    then record { value = none; reason = review_skipped; finding_count = none }
    else let count = finding_total outcome in
      record {
        value = some (if count == 0 then 1 else 0);
        reason = if count == 0 then zero_findings else findings_present;
        finding_count = some count;
      }

one_given :
    (policy : Option ProjectReviewPolicy) (outcome : ReviewOutcome)
    → (decide_code_review_vote policy outcome).value ≡ some 1
    → (p : ProjectReviewPolicy) × (policy ≡ some p)
      × (p.auto_code_review ≡ true)
      × (outcome.skipped_reason ≡ false)
      × (outcome.skipped_no_reviewable_text ≡ false)
      × (finding_total outcome ≡ 0)
unfolding decide_code_review_vote
one_given none outcome h = cc
one_given (some p) outcome h =
    let (a, b, c, d) : (p.auto_code_review ≡ true)
        × (outcome.skipped_reason ≡ false)
        × (outcome.skipped_no_reviewable_text ≡ false)
        × (finding_total outcome ≡ 0) =
      ground arith in
    (p, refl, a, b, c, d)

none_found :
    (outcome : ReviewOutcome)
    → finding_total outcome ≡ 0
    → (outcome.findings ≡ 0) × ((n : ℕ) → outcome.validated_finding_count ≡ counted n → n ≡ 0)
unfolding finding_total
none_found outcome h = (ground arith, λ n e. ground arith)

nothing_found :
    (outcome : ReviewOutcome)
    → outcome.findings ≡ 0
    → ((n : ℕ) → outcome.validated_finding_count ≡ counted n → n ≡ 0)
    → finding_total outcome ≡ 0
unfolding finding_total
nothing_found outcome z f = total outcome.validated_finding_count refl
  where
    total : (c : FindingCount) → outcome.validated_finding_count ≡ c → finding_total outcome ≡ 0
    total not_an_int e = ground arith
    total negative e = ground arith
    total (counted n) e = let k = f n e in ground arith

one_earned :
    (p : ProjectReviewPolicy) (outcome : ReviewOutcome)
    → p.auto_code_review ≡ true
    → outcome.skipped_reason ≡ false
    → outcome.skipped_no_reviewable_text ≡ false
    → finding_total outcome ≡ 0
    → (decide_code_review_vote (some p) outcome).value ≡ some 1
unfolding decide_code_review_vote
one_earned p outcome a b c d = ground arith

-- A +1 is decided exactly when the job has a policy that lets it vote, the review was not skipped,
-- it carries no finding, and the validated count, where that is a number, is zero.
pub decide_code_review_vote_one :
    (policy : Option ProjectReviewPolicy) (outcome : ReviewOutcome)
    → ((decide_code_review_vote policy outcome).value ≡ some 1) ↔ (
        (p : ProjectReviewPolicy) × (policy ≡ some p)
        × (p.auto_code_review ≡ true)
        × (outcome.skipped_reason ≡ false)
        × (outcome.skipped_no_reviewable_text ≡ false)
        × (outcome.findings ≡ 0)
        × ((n : ℕ) → outcome.validated_finding_count ≡ counted n → n ≡ 0))
decide_code_review_vote_one policy outcome = (
  λ h.
      let (p, e, a, b, c, d) = one_given policy outcome h in
      let (z, f) = none_found outcome d in (p, e, a, b, c, z, f),
  λ (p, e, a, b, c, z, f). rw e (one_earned p outcome a b c (nothing_found outcome z f)),
)
