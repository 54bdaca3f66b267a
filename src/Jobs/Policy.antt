-- ===== src/Jobs/Policy.antt =====
-- src/pe_review_agent/jobs/project_policy.py: a job binds the review policy of its project once.
pub mod Once
use pe_review_agent.Domain.{Name, review, stage_eq}
use pe_review_agent.Jobs.Rows.{
  Attempt, Db, Job, ManagedProject, PolicySource, ProjectReviewPolicy, ReviewLanguage, StoreError,
  Tx, bound, default_source, inherit, legacy_pre_feature, legacy_source, project_source, unbound,
}
use pe_review_agent.Jobs.Store.{on_job, require_live_lease}
use pe_review_agent.Prelude.{Bool, Option, any, false, find?, none, some, true, ℕ, ◌&&◌, ◌==◌}
use pe_review_agent.Prelude.Result.{Result, ok, ◌>>=◌, ◌>>◌}

abbrev pub bound_policy :
    ℕ → ReviewLanguage → ReviewLanguage → Bool → ℕ → PolicySource → ProjectReviewPolicy
bound_policy now language output vote generation source = record {
  review_language = language;
  output_language = output;
  auto_code_review = vote;
  generation = generation;
  bound_at = now;
  source = source;
}

-- Whether an attempt of stage REVIEW was made before the job was bound.
abbrev pub was_reviewed : ℕ → Db → Bool
was_reviewed i db = any (λ (a : Attempt). a.job_id == i && stage_eq a.stage review) db.attempts

abbrev output_of : ReviewLanguage → ReviewLanguage → ReviewLanguage
output_of default inherit = default
output_of default l = l

-- The policy of a job that has none.
unfoldable pub fresh_policy :
    ℕ → ReviewLanguage → Bool → Option ManagedProject → ProjectReviewPolicy
fresh_policy now default true none = bound_policy now inherit default false 0 legacy_source
fresh_policy now default true (some p) =
    bound_policy now inherit default false p.policy_generation legacy_source
fresh_policy now default false none = bound_policy now inherit default false 0 default_source
fresh_policy now default false (some p) =
    bound_policy now p.review_language (output_of default p.review_language) p.auto_code_review
      p.policy_generation project_source

-- The policy that `bind_project_review_policy` returns for the column that it read.
unfoldable pub policy_for : ℕ → ReviewLanguage → Job → Db → ProjectReviewPolicy
unfolding fresh_policy
policy_for now default job db = elim job.project_review_policy [
  | bound p ↦ p
  | legacy_pre_feature ↦ bound_policy now inherit default false 0 legacy_source
  | unbound ↦
      fresh_policy now default (was_reviewed job.id db)
        (find? (λ p. p.project == job.project) db.projects)
]

unfoldable pub bind_row : ℕ → Name → ReviewLanguage → Db → Job → Result StoreError Job
unfolding require_live_lease policy_for
bind_row now worker default db job = do
  require_live_lease now job worker
  ok (record job { project_review_policy = bound (policy_for now default job db) })

-- `bind_project_review_policy`, with the job that it bound.
unfoldable pub bind_project_review_policy : ℕ → ℕ → Name → ReviewLanguage → Tx Job
unfolding on_job bind_row
bind_project_review_policy now i worker default db = on_job i (bind_row now worker default db) db
