-- ===== src/Service/Retry.antt =====
-- src/pe_review_agent/service.py: the retry policy of a worker. Each function is one pass with no
-- other transaction in between. One tick is one second. `_schedule_retry` reads the clock for the time
-- that has elapsed and again for `retry_at`, and its transaction has a time of its own.
pub mod Bounded
pub mod Decided
use pe_review_agent.Domain.{
  AttemptStage, JobState, Name, done, failed_permanent, fetch, publish, publishing,
  ready_to_publish, reconcile, review, stage_eq, state_eq, superseded, validate,
}
use pe_review_agent.Jobs.Rows.{
  Db, ErrorClass, ErrorValue, Job, Tx, error_class_of, exception, overflow_error, permanent_error,
  provider_unavailable_error, transient_error,
}
use pe_review_agent.Jobs.Store.Attempts.{
  ProviderRetryStatus, count_consumed_retry_attempts, is_provider_unavailable,
  provider_retry_status,
}
use pe_review_agent.Jobs.Store.Leases.{
  guard_lease_lost, guard_ok, guard_superseded, refresh_publish_guard,
}
use pe_review_agent.Jobs.Store.Lifecycle.{mark_failed_permanent, schedule_retry}
use pe_review_agent.Prelude.{
  Bool, Option, false, if◌then◌else◌, is_none, leb, ltb, max, min, none, not, some, true, ℕ, ◌&&◌,
  ◌+◌, ◌-◌, ◌||◌,
}
use pe_review_agent.Prelude.Result.{err, ok, ◌>>=◌, ◌>>◌}
use pe_review_agent.Service.Backoff.{Backoff, exponential_backoff}

pub record RetrySettings : Type 0 where
  pub fetch_attempts : ℕ
  pub review_attempts : ℕ
  pub publish_attempts : ℕ
  pub llm_provider_attempts : ℕ
  pub llm_provider_max_wait_seconds : ℕ
  pub backoff : Backoff

-- `_retry_budget`
unfoldable pub retry_budget : RetrySettings → AttemptStage → ℕ
retry_budget s fetch = s.fetch_attempts
retry_budget s review = s.review_attempts
retry_budget s validate = s.review_attempts
retry_budget s publish = s.publish_attempts
retry_budget s reconcile = s.fetch_attempts

-- An error of a stage: what the store records of it, and its `retry_after_seconds`.
pub record StageError : Type 0 where
  pub error : ErrorValue
  pub retry_after_seconds : Option ℕ

-- `isinstance(error, ProviderUnavailableError) and stage is AttemptStage.REVIEW`
abbrev pub provider_retry : StageError → AttemptStage → Bool
provider_retry e stage = is_provider_unavailable (error_class_of e.error) && stage_eq stage review

-- `max(0.0, (now - first_failed_at).total_seconds())`
abbrev pub elapsed_since : ℕ → Option ℕ → ℕ
elapsed_since now none = 0
elapsed_since now (some t) = now - t

-- `isinstance(error, TransientError)`
abbrev pub is_transient : Option ErrorClass → Bool
is_transient (some transient_error) = true
is_transient (some provider_unavailable_error) = true
is_transient _ = false

abbrev pub or_else : {A : Type 0} → Option A → A → A
or_else none d = d
or_else (some n) d = n

-- `retry_after` if there is one, and otherwise the backoff, which may overflow.
abbrev pub or_backoff : Option ℕ → Option ℕ → Option ℕ
or_backoff none backoff = backoff
or_backoff (some n) backoff = some n

-- `backoff_overflows`: the OverflowError of the backoff leaves `_schedule_retry`.
pub data RetryDecision : Type 0 where
  provider_exhausted budget_exhausted backoff_overflows : RetryDecision
  wait : ℕ → RetryDecision

-- The PermanentError of a budget that is used up; its text is shortened.
abbrev pub exhausted : ErrorValue
exhausted = exception permanent_error "retry budget exhausted"

-- The end of `_can_start_attempt`, where the job has failed for good or not.
unfoldable pub admit : ℕ → ℕ → Name → Bool → Tx Bool
unfolding mark_failed_permanent
admit now i worker true db = ok (db, true)
admit now i worker false db = do
  (db', job) ← mark_failed_permanent now i exhausted worker db
  ok (db', false)

-- The state to resume in.
abbrev pub resume_state : AttemptStage → Job → JobState
resume_state stage job =
    if stage_eq stage publish && state_eq job.state ready_to_publish then publishing else job.state

-- Acting on the decision, at the clock's second reading.
unfoldable pub act_on : ℕ → ℕ → Job → AttemptStage → Name → StageError → RetryDecision → Tx Job
unfolding mark_failed_permanent schedule_retry
act_on clock at job stage worker e provider_exhausted =
    mark_failed_permanent at job.id exhausted worker
act_on clock at job stage worker e budget_exhausted =
    mark_failed_permanent at job.id exhausted worker
act_on clock at job stage worker e backoff_overflows = λ db. err overflow_error
act_on clock at job stage worker e (wait delay) =
    schedule_retry at job.id (resume_state stage job) (clock + delay) e.error worker

-- The wait for a provider that is unavailable: at least a second, and no longer than is left.
abbrev pub provider_wait : ℕ → Option ℕ → RetryDecision
provider_wait remaining none = backoff_overflows
provider_wait remaining (some asked) = wait (min (max 1 asked) remaining)

-- The wait for another error.
abbrev pub stage_wait : Option ℕ → RetryDecision
stage_wait none = backoff_overflows
stage_wait (some delay) = wait delay

module _ (uniform : ℕ → ℕ → ℕ) (s : RetrySettings) where
  -- What `_schedule_retry` decides from its two counts.
  unfoldable pub decide_retry :
      ℕ → AttemptStage → StageError → Bool → ℕ → ProviderRetryStatus → RetryDecision
  unfolding retry_budget exponential_backoff
  decide_retry now stage e allow_recovery_pass consumed status =
      let elapsed = elapsed_since now status.first_failed_at in
      let retry_after =
        if is_transient (error_class_of e.error) then e.retry_after_seconds else none in
      if provider_retry e stage
      then (if leb s.llm_provider_attempts status.count
            || leb s.llm_provider_max_wait_seconds elapsed
          then provider_exhausted
          else provider_wait (s.llm_provider_max_wait_seconds - elapsed) (
              or_backoff e.retry_after_seconds
                (exponential_backoff uniform s.backoff status.count)))
      else if not (stage_eq stage reconcile)
          && (leb (retry_budget s stage) consumed && not allow_recovery_pass)
      then budget_exhausted
      else stage_wait (or_backoff retry_after (exponential_backoff uniform s.backoff consumed))

  -- `_schedule_retry` on the job that it read, which is there.
  unfoldable pub schedule_stage_retry :
      ℕ → ℕ → ℕ → Job → AttemptStage → Name → StageError → Bool → Tx Job
  unfolding decide_retry act_on count_consumed_retry_attempts provider_retry_status
  schedule_stage_retry now clock at job stage worker e allow_recovery_pass db =
      act_on clock at job stage worker e
        (decide_retry now stage e allow_recovery_pass
          (count_consumed_retry_attempts job.id stage db) (provider_retry_status job.id stage db))
        db

  -- Whether the provider's retries are used up before an attempt starts.
  unfoldable pub provider_spent : ℕ → AttemptStage → ProviderRetryStatus → Bool
  provider_spent now stage status =
      stage_eq stage review
      && (ltb 0 status.count
          && (not (is_none status.first_failed_at)
              && (leb s.llm_provider_attempts status.count
                  || leb s.llm_provider_max_wait_seconds
                      (elapsed_since now status.first_failed_at))))

  -- The test of `_can_start_attempt`.
  unfoldable pub may_attempt : ℕ → AttemptStage → ℕ → ProviderRetryStatus → Bool
  unfolding provider_spent retry_budget
  may_attempt now stage consumed status =
      not (provider_spent now stage status)
      && (stage_eq stage reconcile || ltb consumed (retry_budget s stage))

  -- `_can_start_attempt`: a job that may not start one has failed for good.
  unfoldable pub can_start_attempt : ℕ → ℕ → AttemptStage → Name → Tx Bool
  unfolding may_attempt admit count_consumed_retry_attempts provider_retry_status
  can_start_attempt now i stage worker db =
      admit now i worker
        (may_attempt now stage (count_consumed_retry_attempts i stage db)
          (provider_retry_status i stage db))
        db

-- `_permanent_failure` on the job that it read.
unfoldable pub permanent_failure : ℕ → ErrorValue → Name → Option Job → Tx (Unit {0})
unfolding mark_failed_permanent
permanent_failure now error worker none db = ok (db, tt)
permanent_failure now error worker (some job) db =
    if state_eq job.state done
      || state_eq job.state superseded
      || state_eq job.state failed_permanent
    then ok (db, tt)
    else (do (db', closed_job) ← mark_failed_permanent now job.id error worker db; ok (db', tt))

-- `_publish_guard`: whether to go on; `none` is the LeaseLostError.
unfoldable pub publish_guard : ℕ → ℕ → Name → ℕ → Db → Db × Option Bool
unfolding refresh_publish_guard
publish_guard now i worker lease db =
    let (db', status) = refresh_publish_guard now i worker lease db in
    (
      db',
      elim status [
        | guard_lease_lost ↦ none
        | guard_ok ↦ some true
        | guard_superseded ↦ some false
      ],
    )
