-- ===== src/Service/Retry/Decided.antt =====
-- What `_schedule_retry` of src/pe_review_agent/service.py leaves of a job.
use pe_review_agent.Domain.{AttemptStage, JobState, Name, failed_permanent, retry_wait}
use pe_review_agent.Jobs.History.{Step, retried}
use pe_review_agent.Jobs.Rows.{Db, ErrorValue, Job, invalid_retry_target}
use pe_review_agent.Jobs.StateMachine.{valid_retry_target}
use pe_review_agent.Jobs.Store.{find_job, on_job, on_job-ok}
use pe_review_agent.Jobs.Store.Attempts.{
  ProviderRetryStatus, count_consumed_retry_attempts, provider_retry_status,
}
use pe_review_agent.Jobs.Store.Lifecycle.{
  mark_failed_permanent, mark_failed_permanent_row, schedule_retry, schedule_retry_row,
}
use pe_review_agent.Jobs.Store.Publications.{JobIdentity}
use pe_review_agent.Jobs.Store.Worked.{Resumes, tested}
use pe_review_agent.Prelude.{
  Bool, Bool-cases, Option, ap, arith, inl, inr, leb, max, min, none, refl, some, some_inj, subst,
  sym, true, ℕ, ◌+◌, ◌-◌, ◌<◌, ◌||◌, ◌∙◌, ◌≡◌, ◌≤◌,
}
use pe_review_agent.Prelude.Result.{ok}
use pe_review_agent.Service.Backoff.{exponential_backoff}
use pe_review_agent.Service.Retry.{
  RetryDecision, RetrySettings, StageError, act_on, backoff_overflows, budget_exhausted,
  decide_retry, elapsed_since, exhausted, or_backoff, provider_exhausted, provider_retry,
  provider_wait, resume_state, schedule_stage_retry, wait,
}

module _ (uniform : ℕ → ℕ → ℕ) (s : RetrySettings) where
  -- What the wait for a provider is.
  wait_within :
      (remaining : ℕ) (o : Option ℕ) (delay : ℕ)
      → provider_wait remaining o ≡ wait delay
      → delay ≤ remaining
  wait_within remaining none delay h = cc
  wait_within remaining (some asked) delay h =
      let e : min (max 1 asked) remaining ≡ delay = cc in omega arith

  decided_wait :
      (now : ℕ) (stage : AttemptStage) (e : StageError) (allow : Bool) (consumed : ℕ)
      (status : ProviderRetryStatus) (first delay : ℕ)
      → provider_retry e stage ≡ true
      → status.first_failed_at ≡ some first
      → first ≤ now
      → decide_retry uniform s now stage e allow consumed status ≡ wait delay
      → (now + delay ≤ first + s.llm_provider_max_wait_seconds)
        × (status.count < s.llm_provider_attempts)
  unfolding decide_retry
  decided_wait now stage e allow consumed status first delay p f l h =
      let elapsed = elapsed_since now status.first_failed_at in
      let gone : elapsed ≡ now - first = ap (elapsed_since now) f in
      let asked =
        or_backoff e.retry_after_seconds (exponential_backoff uniform s.backoff status.count) in
      let remaining = s.llm_provider_max_wait_seconds - elapsed in
      elim (Bool-cases
        (leb s.llm_provider_attempts status.count || leb s.llm_provider_max_wait_seconds elapsed)) [
          | inl t ↦ absurd (cc (rw (p, t) at h))
          | inr n ↦
              let w = wait_within remaining asked delay (rw (p, n) at h) in
              (ground arith, ground arith)
        ]

given_up :
    (now : ℕ) (error : ErrorValue) (worker : Name) (job r : Job)
    → mark_failed_permanent_row now error worker job ≡ ok r
    → (r.state ≡ failed_permanent) × (r.lease_owner ≡ none)
unfolding mark_failed_permanent_row
given_up now error worker job r h = ground arith

waiting :
    (now at : ℕ) (resume : JobState) (error : ErrorValue) (worker : Name) (job r : Job)
    → schedule_retry_row now resume at error worker job ≡ ok r
    → (r.state ≡ retry_wait)
      × (r.retry_state ≡ some resume)
      × (r.next_attempt_at ≡ at)
      × (r.lease_owner ≡ none)
unfolding schedule_retry_row
waiting now at resume error worker job r h = ground arith

-- What the decision makes of the job.
abbrev pub Follows : ℕ → JobState → Job → RetryDecision → Type 0
Follows now resume r provider_exhausted = (r.state ≡ failed_permanent) × (r.lease_owner ≡ none)
Follows now resume r budget_exhausted = (r.state ≡ failed_permanent) × (r.lease_owner ≡ none)
Follows now resume r backoff_overflows = ⊥
Follows now resume r (wait delay) =
    (r.state ≡ retry_wait)
    × (r.retry_state ≡ some resume)
    × (r.next_attempt_at ≡ now + delay)
    × (r.lease_owner ≡ none)

give_up-Follows :
    (now i : ℕ) (worker : Name) (db db' : Db) (r : Job)
    → mark_failed_permanent now i exhausted worker db ≡ ok (db', r)
    → (r.state ≡ failed_permanent) × (r.lease_owner ≡ none)
unfolding mark_failed_permanent
give_up-Follows now i worker db db' r h =
    let (job, f, c, e) = on_job-ok i (mark_failed_permanent_row now exhausted worker) db db' r h in
    given_up now exhausted worker job r c

retry-Follows :
    (now i at : ℕ) (resume : JobState) (error : ErrorValue) (worker : Name) (db db' : Db) (r : Job)
    → schedule_retry now i resume at error worker db ≡ ok (db', r)
    → (r.state ≡ retry_wait)
      × (r.retry_state ≡ some resume)
      × (r.next_attempt_at ≡ at)
      × (r.lease_owner ≡ none)
unfolding schedule_retry
retry-Follows now i at resume error worker db db' r h =
    let (t, e) =
      tested (valid_retry_target resume) (invalid_retry_target resume)
        (on_job i (schedule_retry_row now resume at error worker) db) (db', r) h in
    let (job, f, c, s) = on_job-ok i (schedule_retry_row now resume at error worker) db db' r e in
    waiting now at resume error worker job r c

resumes : (stage : AttemptStage) (job : Job) → Resumes (resume_state stage job) job
resumes stage job = ground arith

module _ (digest : JobIdentity → Name → Name) (now clock at : ℕ) (job : Job) (stage : AttemptStage)
    (worker : Name) (e : StageError) where
  act_on-Follows :
      (d : RetryDecision) (db db' : Db) (r : Job)
      → act_on clock at job stage worker e d db ≡ ok (db', r)
      → Follows clock (resume_state stage job) r d
  unfolding act_on
  act_on-Follows provider_exhausted db db' r h = give_up-Follows at job.id worker db db' r h
  act_on-Follows budget_exhausted db db' r h = give_up-Follows at job.id worker db db' r h
  act_on-Follows backoff_overflows db db' r h = cc
  act_on-Follows (wait delay) db db' r h =
      retry-Follows at job.id (clock + delay) (resume_state stage job) e.error worker db db' r h

  act_on-Step :
      (d : RetryDecision) (db db' : Db) (r : Job)
      → find_job job.id db ≡ some job
      → act_on clock at job stage worker e d db ≡ ok (db', r)
      → Step digest db db'
  unfolding act_on
  act_on-Step provider_exhausted db db' r f h = Step.given_up at job.id exhausted worker db db' r h
  act_on-Step budget_exhausted db db' r f h = Step.given_up at job.id exhausted worker db db' r h
  act_on-Step backoff_overflows db db' r f h = cc
  act_on-Step (wait delay) db db' r f h =
      retried at job.id (resume_state stage job) (clock + delay) e.error worker db db' r
        (λ j g. subst (Resumes (resume_state stage job)) (some_inj (sym f ∙ g)) (resumes stage job))
        h

  -- Scheduling a retry on the job that was read is one step of the job store's histories, and does
  -- with the job what was decided: FAILED_PERMANENT, or RETRY_WAIT until the decided wait after the
  -- clock's second reading, with the state to resume in, and no lease either way.
  pub schedule_stage_retry-Follows :
      (uniform : ℕ → ℕ → ℕ) (s : RetrySettings) (allow : Bool) (db db' : Db) (r : Job)
      → find_job job.id db ≡ some job
      → schedule_stage_retry uniform s now clock at job stage worker e allow db ≡ ok (db', r)
      → Step digest db db'
        × Follows clock (resume_state stage job) r (
            decide_retry uniform s now stage e allow
              (count_consumed_retry_attempts job.id stage db)
              (provider_retry_status job.id stage db))
  unfolding schedule_stage_retry
  schedule_stage_retry-Follows uniform s allow db db' r f h =
      let d =
        decide_retry uniform s now stage e allow (count_consumed_retry_attempts job.id stage db)
          (provider_retry_status job.id stage db) in
      (act_on-Step d db db' r f h, act_on-Follows d db db' r h)

-- A job that waits was decided to wait.
waits_as :
    (clock : ℕ) (resume : JobState) (r : Job) (d : RetryDecision)
    → r.state ≡ retry_wait
    → Follows clock resume r d
    → (delay : ℕ) × (d ≡ wait delay) × (r.next_attempt_at ≡ clock + delay)
waits_as clock resume r provider_exhausted s h = absurd (cc (sym s ∙ h.0))
waits_as clock resume r budget_exhausted s h = absurd (cc (sym s ∙ h.0))
waits_as clock resume r backoff_overflows s h = absurd h
waits_as clock resume r (wait delay) s h = (delay, refl, h.2)

-- Where `_schedule_retry` commits a retry for an unavailable provider, fewer failures than configured had
-- been seen, and the job is due no later than the longest wait configured after the first of them, put
-- off by the time that passed between the two readings of the clock.
pub schedule_stage_retry_deadline :
    (uniform : ℕ → ℕ → ℕ) (s : RetrySettings) (now clock at : ℕ) (job : Job) (stage : AttemptStage)
    (worker : Name) (e : StageError) (allow : Bool) (db db' : Db) (r : Job) (first : ℕ)
    → provider_retry e stage ≡ true
    → (provider_retry_status job.id stage db).first_failed_at ≡ some first
    → first ≤ now
    → schedule_stage_retry uniform s now clock at job stage worker e allow db ≡ ok (db', r)
    → r.state ≡ retry_wait
    → (r.next_attempt_at + now ≤ first + s.llm_provider_max_wait_seconds + clock)
      × ((provider_retry_status job.id stage db).count < s.llm_provider_attempts)
unfolding schedule_stage_retry
schedule_stage_retry_deadline uniform s now clock at job stage worker e allow db db' r first p f l h
      w =
    let consumed = count_consumed_retry_attempts job.id stage db in
    let status = provider_retry_status job.id stage db in
    let d = decide_retry uniform s now stage e allow consumed status in
    let follows = act_on-Follows (λ i n. n) now clock at job stage worker e d db db' r h in
    let (delay, same, due) = waits_as clock (resume_state stage job) r d w follows in
    let (within, few) =
      decided_wait uniform s now stage e allow consumed status first delay p f l same in
    (omega arith, few)
