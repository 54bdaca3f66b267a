-- ===== src/Jobs/Store/Lifecycle.antt =====
-- src/pe_review_agent/jobs/store.py: the transactions that move one job along its life.
use pe_review_agent.Domain.{
  JobState, Name, done, failed_permanent, is_terminal_state, publishing, ready_to_publish, received,
  retry_wait, state_eq, superseded,
}
use pe_review_agent.Jobs.Rows.{
  Db, ErrorValue, Job, Publication, PublicationStatus, StoreError, Tx, error_class_of, error_text,
  invalid_retry_target, missing_result, older_patchset, only_failed_permanent,
}
use pe_review_agent.Jobs.StateMachine.{valid_retry_target}
use pe_review_agent.Jobs.Store.{check_transition, is_newer, on_job, require_live_lease}
use pe_review_agent.Prelude.{
  Bool, List, Option, any, false, find?, if◌then◌else◌, none, not, replace_first, some, true, ℕ,
  ◌==◌, ◌||◌, ◌∷◌,
}
use pe_review_agent.Prelude.Result.{Result, err, guard, ok, ◌>>=◌, ◌>>◌}

-- What `transition` does to its row.
unfoldable pub transition_row : ℕ → JobState → Name → Bool → Job → Result StoreError Job
unfolding require_live_lease check_transition
transition_row now target worker release_lease job = do
  require_live_lease now job worker
  check_transition job.state target
  let job' = record job { state = target; retry_state = none }
  ok (
      if release_lease || is_terminal_state target
      then record job' { lease_owner = none; lease_expires_at = none }
      else job')

-- `JobStore.transition`
unfoldable pub transition : ℕ → ℕ → JobState → Name → Bool → Tx Job
unfolding on_job transition_row
transition now i target worker release_lease =
    on_job i (transition_row now target worker release_lease)

-- `JobStore.mark_done`
unfoldable pub mark_done : ℕ → ℕ → Name → Tx Job
unfolding transition
mark_done now i worker = transition now i done worker true

unfoldable pub schedule_retry_row :
    ℕ → JobState → ℕ → ErrorValue → Name → Job → Result StoreError Job
unfolding require_live_lease check_transition
schedule_retry_row now resume_state retry_at error worker job = do
  require_live_lease now job worker
  check_transition job.state retry_wait
  ok (record job {
    state = retry_wait;
    retry_state = some resume_state;
    next_attempt_at = retry_at;
    last_error_class = error_class_of error;
    last_error = some (error_text error);
    lease_owner = none;
    lease_expires_at = none;
  })

-- `JobStore.schedule_retry`
unfoldable pub schedule_retry : ℕ → ℕ → JobState → ℕ → ErrorValue → Name → Tx Job
unfolding on_job schedule_retry_row valid_retry_target
schedule_retry now i resume_state retry_at error worker db =
    if valid_retry_target resume_state
    then on_job i (schedule_retry_row now resume_state retry_at error worker) db
    else err (invalid_retry_target resume_state)

unfoldable pub mark_failed_permanent_row : ℕ → ErrorValue → Name → Job → Result StoreError Job
unfolding require_live_lease check_transition
mark_failed_permanent_row now error worker job = do
  require_live_lease now job worker
  check_transition job.state failed_permanent
  ok (record job {
    state = failed_permanent;
    retry_state = none;
    last_error_class = error_class_of error;
    last_error = some (error_text error);
    lease_owner = none;
    lease_expires_at = none;
  })

-- `JobStore.mark_failed_permanent`
unfoldable pub mark_failed_permanent : ℕ → ℕ → ErrorValue → Name → Tx Job
unfolding on_job mark_failed_permanent_row
mark_failed_permanent now i error worker = on_job i (mark_failed_permanent_row now error worker)

-- A job that is SUPERSEDED already is returned as it is, without a lease.
unfoldable pub mark_superseded_row : ℕ → Name → Option ℕ → Job → Result StoreError Job
unfolding require_live_lease check_transition
mark_superseded_row now worker superseded_by job =
    if state_eq job.state superseded then ok job else do
      require_live_lease now job worker
      check_transition job.state superseded
      ok (record job {
        state = superseded;
        superseded_by_job_id = superseded_by;
        retry_state = none;
        lease_owner = none;
        lease_expires_at = none;
      })

-- `JobStore.mark_superseded`
unfoldable pub mark_superseded : ℕ → ℕ → Name → Option ℕ → Tx Job
unfolding on_job mark_superseded_row
mark_superseded now i worker superseded_by = on_job i (mark_superseded_row now worker superseded_by)

-- The row that `requeue_failed` and `save_review_result_and_mark_ready` look for.
abbrev pub has_result : ℕ → Db → Bool
has_result i db = any (λ r. r == i) db.results

-- READY_TO_PUBLISH already, or the transition to it.
unfoldable pub ready_row : Db → Job → Result StoreError Job
unfolding check_transition
ready_row db job =
    if state_eq job.state ready_to_publish
    then if has_result job.id db then ok job else err missing_result
    else do
      check_transition job.state ready_to_publish
      ok (record job {
        state = ready_to_publish;
        retry_state = none;
        lease_owner = none;
        lease_expires_at = none;
        last_error = none;
        last_error_class = none;
      })

unfoldable pub save_ready_row : ℕ → Name → Db → Job → Result StoreError Job
unfolding require_live_lease ready_row
save_ready_row now worker db job = do require_live_lease now job worker; ready_row db job

-- `JobStore.save_review_result_and_mark_ready`: the row of review_results is written once.
unfoldable pub save_review_result_and_mark_ready : ℕ → ℕ → Name → Tx Job
unfolding on_job save_ready_row
save_review_result_and_mark_ready now i worker db = do
  (db', job) ← on_job i (save_ready_row now worker db) db
  ok (record db' { results = if has_result i db then db.results else i ∷ db.results }, job)

-- The publication that `requeue_failed` reads, and what becomes of it.
abbrev pub publication_of : ℕ → Db → Option Publication
publication_of i db = find? (λ p. p.job_id == i) db.publications

abbrev is_failed : PublicationStatus → Bool
is_failed PublicationStatus.failed = true
is_failed _ = false

abbrev pub is_posted : PublicationStatus → Bool
is_posted PublicationStatus.posted = true
is_posted _ = false

unfoldable pub reopen_publication : Publication → Publication
reopen_publication p =
    if is_failed p.status
    then record p {
      status = PublicationStatus.pending;
      last_error = none;
      gerrit_response = none;
      posted_at = none;
    }
    else p

-- The durable phase that a requeued job resumes in.
unfoldable pub resume_phase : Option Publication → Bool → JobState
resume_phase (some p) review_exists = if is_posted p.status then done else publishing
resume_phase none review_exists = if review_exists then ready_to_publish else received

abbrev touch_publication : Option Publication → List Publication → List Publication
touch_publication none ps = ps
touch_publication (some p) ps =
    if is_posted p.status
    then ps
    else replace_first (λ q. q.id == p.id) (unfold reopen_publication in reopen_publication p) ps

unfoldable pub requeue_row : ℕ → Db → Job → Result StoreError Job
unfolding resume_phase
requeue_row now db job = do
  guard (state_eq job.state failed_permanent) (only_failed_permanent job.state)
  guard (not (any (is_newer job) db.jobs)) older_patchset
  ok (record job {
    state = resume_phase (publication_of job.id db) (has_result job.id db);
    retry_epoch_start_attempt = job.attempt_count;
    retry_state = none;
    next_attempt_at = now;
    lease_owner = none;
    lease_expires_at = none;
    claimed_at = none;
    last_error_class = none;
    last_error = none;
  })

-- `JobStore.requeue_failed`
unfoldable pub requeue_failed : ℕ → ℕ → Tx Job
unfolding on_job requeue_row reopen_publication
requeue_failed now i db = do
  (db', job) ← on_job i (requeue_row now db) db
  ok (record db' { publications = touch_publication (publication_of i db) db.publications }, job)
