-- ===== src/Jobs/Policy/Once.antt =====
-- src/pe_review_agent/jobs/project_policy.py: a job is bound once, and a later change of the
-- project's settings does not reach it.
use pe_review_agent.Domain.{Name}
use pe_review_agent.Jobs.Policy.{bind_project_review_policy, bind_row, policy_for}
use pe_review_agent.Jobs.Rows.{
  Attempt, Db, Job, ManagedProject, ProjectReviewPolicy, ReviewLanguage, bound,
}
use pe_review_agent.Jobs.Store.{find_job, on_job-ok}
use pe_review_agent.Jobs.Store.Budget.{find_job-put_job, found_id}
use pe_review_agent.Prelude.{List, ap, arith, some, some_inj, subst, sym, ℕ, ◌∙◌, ◌≡◌}
use pe_review_agent.Prelude.Result.{ok}

bound_row :
    (now : ℕ) (worker : Name) (default : ReviewLanguage) (db : Db) (a b : Job)
    → bind_row now worker default db a ≡ ok b
    → (b.id ≡ a.id)
      × (b.project_review_policy ≡ bound (policy_for now default a db))
      × ((p : ProjectReviewPolicy)
          → a.project_review_policy ≡ bound p
          → b.project_review_policy ≡ bound p)
unfolding bind_row policy_for
bound_row now worker default db a b h = (ground arith, ground arith, λ p e. ground arith)

-- Once a job is bound to a policy, binding it again, at any time, by any worker, with any default
-- language and whatever the projects and the attempts are by then, keeps that policy.
pub bind_project_review_policy_once :
    (now now' i : ℕ) (worker worker' : Name) (default default' : ReviewLanguage)
    (projects : List ManagedProject) (attempts : List Attempt) (db db1 db2 : Db) (a b : Job)
    → bind_project_review_policy now i worker default db ≡ ok (db1, a)
    → bind_project_review_policy now' i worker' default'
        (record db1 { projects = projects; attempts = attempts })
      ≡ ok (db2, b)
    → b.project_review_policy ≡ a.project_review_policy
unfolding bind_project_review_policy find_job
bind_project_review_policy_once now now' i worker worker' default default' projects attempts db db1
      db2 a b h h' =
    let later = record db1 { projects = projects; attempts = attempts } in
    let (x, f, c, s) = on_job-ok i (bind_row now worker default db) db db1 a h in
    let (y, g, d, t) = on_job-ok i (bind_row now' worker' default' later) later db2 b h' in
    let (same, p, k) = bound_row now worker default db x a c in
    let (same', p', k') = bound_row now' worker' default' later y b d in
    let again : find_job i db1 ≡ some a =
      subst (λ (z : Db). find_job i z ≡ some a) (sym s)
        (find_job-put_job i db x a f (same ∙ found_id i db x f)) in
    let is_a : y ≡ a = some_inj (sym g ∙ again) in
    k' (policy_for now default x db) (ap (λ (z : Job). z.project_review_policy) is_a ∙ p) ∙ sym p
