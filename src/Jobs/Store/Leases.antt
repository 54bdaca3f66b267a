-- ===== src/Jobs/Store/Leases.antt =====
-- src/pe_review_agent/jobs/store.py: claiming a job, keeping its lease alive, and the guard that is
-- taken right before a review is posted. Transactions are atomic, so `skip_locked` never skips.
use pe_review_agent.Domain.{
  Name, failed_permanent, is_terminal_state, publishing, retry_wait, state_eq,
}
use pe_review_agent.Jobs.Rows.{Db, Job, ManagedProject, invalid_persisted_state}
use pe_review_agent.Jobs.Store.{find_job, is_newer, needs_publish_recovery, put_job, same_change}
use pe_review_agent.Prelude.{
  Bool, List, Option, [], any, count_where, false, if◌then◌else◌, is_some_eq, leb, ltb, none, not,
  some, true, update_where, ℕ, ◌&&◌, ◌+◌, ◌==◌, ◌||◌, ◌∷◌,
}

-- The subquery `unresolved_older_publication` of `_claim_select`.
unfoldable pub unresolved_older_publication : Job → Db → Bool
unfolding needs_publish_recovery
unresolved_older_publication job db =
    any
      (λ older.
        same_change older job
        && ltb older.patchset_number job.patchset_number
        && needs_publish_recovery older)
      db.jobs

-- `or_(~any_managed_projects, project_is_enabled)`
unfoldable pub project_claimable : Job → Db → Bool
project_claimable job db =
    not (any (λ (p : ManagedProject). true) db.projects)
    || any (λ p. p.project == job.project && p.enabled) db.projects

-- `or_(Job.lease_expires_at.is_(None), Job.lease_expires_at <= now)`
unfoldable pub lease_free : ℕ → Job → Bool
lease_free now job = elim job.lease_expires_at [ none ↦ true | some t ↦ leb t now ]

-- The WHERE clause of `_claim_select`.
unfoldable pub claimable : ℕ → Db → Job → Bool
unfolding unresolved_older_publication project_claimable lease_free
claimable now db job =
    not (is_terminal_state job.state)
    && lease_free now job
    && (not (state_eq job.state retry_wait) || leb job.next_attempt_at now)
    && project_claimable job db
    && not (unresolved_older_publication job db)

-- `order_by(Job.next_attempt_at.asc(), Job.created_at.asc())`
abbrev pub due_before : Job → Job → Bool
due_before a b =
    ltb a.next_attempt_at b.next_attempt_at
    || (a.next_attempt_at == b.next_attempt_at && ltb a.created_at b.created_at)

abbrev pub sooner_of : Job → Option Job → Job
sooner_of x none = x
sooner_of x (some y) = if due_before y x then y else x

-- The first row in that order that passes the test; of equal rows, the first in the table.
unfoldable pub earliest : (Job → Bool) → List Job → Option Job
earliest p [] = none
earliest p (x ∷ xs) = let best = earliest p xs in if p x then some (sooner_of x best) else best

-- What `claim_next` does to the row that it selected; `true` if the job is handed to the worker.
unfoldable pub take_claim : ℕ → ℕ → Name → Job → Job × Bool
take_claim now lease worker job =
    let leased = λ (j : Job). record j {
      lease_owner = some worker;
      claimed_at = some now;
      lease_expires_at = some (now + lease);
    } in
    if state_eq job.state retry_wait
    then elim job.retry_state [
      | none ↦ (
        record job {
          state = failed_permanent;
          last_error = some "RETRY_WAIT job has no retry_state";
          last_error_class = some invalid_persisted_state;
        },
        false,
      )
      | some s ↦ (leased (record job { state = s; retry_state = none }), true)
    ]
    else (leased job, true)

-- What `claim_next` does with the outcome of its SELECT.
unfoldable pub claim_row : ℕ → Name → ℕ → Db → Option Job → Db × Option Job
unfolding take_claim put_job
claim_row now worker lease db none = (db, none)
claim_row now worker lease db (some job) =
    let (job', handed) = take_claim now lease worker job in
    (put_job job' db, if handed then some job' else none)

-- `JobStore.claim_next`
unfoldable pub claim_next : ℕ → Name → ℕ → Db → Db × Option Job
unfolding claimable earliest claim_row
claim_next now worker lease db = claim_row now worker lease db (earliest (claimable now db) db.jobs)

-- The WHERE clause of `heartbeat`.
abbrev pub beats : ℕ → Name → ℕ → Job → Bool
beats now worker i job =
    job.id == i
    && is_some_eq job.lease_owner worker
    && elim job.lease_expires_at [ none ↦ false | some t ↦ ltb now t ]
    && not (is_terminal_state job.state)

-- `JobStore.heartbeat`: whether one row was renewed.
unfoldable pub heartbeat : ℕ → ℕ → Name → ℕ → Db → Db × Bool
heartbeat now i worker lease db = (
  record db {
    jobs =
        update_where (beats now worker i) (λ j. record j { lease_expires_at = some (now + lease) })
          db.jobs;
  },
  count_where (beats now worker i) db.jobs == 1,
)

pub data PublishGuardStatus : Type 0 where
  guard_ok guard_superseded guard_lease_lost : PublishGuardStatus

-- The condition under which `refresh_publish_guard` gives the lease up for lost.
unfoldable pub guard_loses : ℕ → Name → Job → Bool
unfolding lease_free
guard_loses now worker job =
    not (state_eq job.state publishing)
    || not (is_some_eq job.lease_owner worker)
    || lease_free now job

-- What `refresh_publish_guard` does with the outcome of its SELECT.
unfoldable pub guard_row : ℕ → Name → ℕ → Db → Option Job → Db × PublishGuardStatus
unfolding put_job guard_loses
guard_row now worker lease db none = (db, guard_lease_lost)
guard_row now worker lease db (some job) =
    if guard_loses now worker job
    then (db, guard_lease_lost)
    else if any (is_newer job) db.jobs
    then (db, guard_superseded)
    else (put_job (record job { lease_expires_at = some (now + lease) }) db, guard_ok)

-- `JobStore.refresh_publish_guard`
unfoldable pub refresh_publish_guard : ℕ → ℕ → Name → ℕ → Db → Db × PublishGuardStatus
unfolding find_job guard_row
refresh_publish_guard now i worker lease db = guard_row now worker lease db (find_job i db)
