-- ===== src/Jobs/Store/Enqueue.antt =====
-- src/pe_review_agent/jobs/store.py: the idempotent insertion of a Patch Set's job, and the order
-- among the Patch Sets of a Change.
use pe_review_agent.Domain.{
  GerritPatchsetEvent, JobState, Name, is_terminal_state, publishing, received, retry_wait,
  skipped_scope, state_eq, superseded,
}
use pe_review_agent.Jobs.Rows.{
  Db, Job, ManagedProject, ProjectReviewStartMode, from_now, include_open, review_scope_changed,
  unbound,
}
use pe_review_agent.Jobs.Store.{is_newer, needs_publish_recovery, put_job, same_change}
use pe_review_agent.Prelude.{
  Bool, List, Option, [], false, find?, if◌then◌else◌, ltb, none, not, some, suc, true,
  update_where, ℕ, ◌&&◌, ◌++◌, ◌==◌, ◌||◌, ◌∷◌,
}

-- The unique key `uq_review_jobs_identity`.
abbrev pub same_identity : GerritPatchsetEvent → Name → Job → Bool
same_identity event version job =
    job.project == event.project
    && job.change_number == event.change_number
    && job.revision_sha == event.revision_sha
    && job.review_policy_version == version

abbrev pub scope_of : Name → Db → Option ManagedProject
scope_of project db = find? (λ p. p.project == project) db.projects

abbrev is_from_now : ProjectReviewStartMode → Bool
is_from_now from_now = true
is_from_now include_open = false

-- `a < b` on two optional times; false where one is missing.
abbrev time_before : Option ℕ → Option ℕ → Bool
time_before (some a) (some b) = ltb a b
time_before _ _ = false

-- Whether the Patch Set predates the cutoff of its project.
unfoldable pub out_of_scope : Option ManagedProject → GerritPatchsetEvent → Bool
out_of_scope none event = false
out_of_scope (some p) event =
    is_from_now p.review_start_mode && time_before event.occurred_at p.review_start_at

-- Whether a duplicate event revives the job that FROM_NOW skipped.
unfoldable pub revives : Option ManagedProject → Job → Bool
revives none job = false
revives (some p) job =
    state_eq job.state skipped_scope && p.enabled && not (is_from_now p.review_start_mode)

-- `_enqueue_insert`: the row inserted, with the column defaults.
unfoldable pub new_job : ℕ → ℕ → GerritPatchsetEvent → Name → Bool → Job
new_job now i event version out = record {
  id = i;
  project = event.project;
  change_number = event.change_number;
  patchset_number = event.patchset_number;
  revision_sha = event.revision_sha;
  review_policy_version = version;
  project_review_policy = unbound;
  state = if out then skipped_scope else received;
  retry_state = none;
  attempt_count = 0;
  retry_epoch_start_attempt = 0;
  next_attempt_at = now;
  lease_owner = none;
  lease_expires_at = none;
  claimed_at = none;
  last_error_class = if out then some review_scope_changed else none;
  last_error =
      if out
      then some "Skipped because Patch Set predates the project's FROM_NOW review cutoff."
      else none;
  superseded_by_job_id = none;
  created_at = now;
  event_payload = event;
}

unfoldable pub revive : ℕ → Job → Job
revive now job = record job {
  state = received;
  retry_state = none;
  next_attempt_at = now;
  last_error_class = none;
  last_error = none;
}

-- `order_by(Job.patchset_number.desc(), Job.created_at.desc()).limit(1)`
abbrev later : Job → Option Job → Job
later x none = x
later x (some y) =
    if ltb x.patchset_number y.patchset_number
      || (x.patchset_number == y.patchset_number && ltb x.created_at y.created_at)
    then y
    else x

unfoldable pub newest : (Job → Bool) → List Job → Option Job
newest p [] = none
newest p (x ∷ xs) = let best = newest p xs in if p x then some (later x best) else best

-- The job itself, when a newer Patch Set is known.
unfoldable pub yield_to : ℕ → Job → Job
unfolding needs_publish_recovery
yield_to newer job =
    if needs_publish_recovery job
    then record job { superseded_by_job_id = some newer }
    else record job {
      state = superseded;
      superseded_by_job_id = some newer;
      lease_owner = none;
      lease_expires_at = none;
    }

-- An older live row of the same Change: the two UPDATEs of `_apply_patchset_ordering` mark the one
-- that may have reached Gerrit, and supersede any other.
abbrev pub is_older_live : Job → Job → Bool
is_older_live job other =
    same_change other job
    && ltb other.patchset_number job.patchset_number
    && not (is_terminal_state other.state)

-- `~or_(…)` of the second UPDATE. Where a RETRY_WAIT row has no retry_state it is NULL, and the row is
-- not updated.
abbrev pub is_other_target : Option JobState → Bool
is_other_target none = false
is_other_target (some target) = not (state_eq target publishing)

unfoldable pub may_supersede : Job → Bool
may_supersede o =
    not (state_eq o.state publishing)
    && (not (state_eq o.state retry_wait) || is_other_target o.retry_state)

unfoldable pub supersede_older : Job → List Job → List Job
unfolding needs_publish_recovery may_supersede
supersede_older job rows =
    update_where (λ o. is_older_live job o && may_supersede o)
      (λ o. record o {
        state = superseded;
        superseded_by_job_id = some job.id;
        lease_owner = none;
        lease_expires_at = none;
        retry_state = none;
      })
      (update_where (λ o. is_older_live job o && needs_publish_recovery o)
        (λ o. record o { superseded_by_job_id = some job.id }) rows)

-- The two UPDATEs.
unfoldable pub settle : Job → Db → Db × Job
unfolding supersede_older
settle job db = (record db { jobs = supersede_older job db.jobs }, job)

-- `_apply_patchset_ordering` after its first test, given the newest newer row.
unfoldable pub order_after : Option Job → Job → Db → Db × Job
unfolding settle yield_to put_job
order_after none job db = settle job db
order_after (some newer) job db =
    if is_terminal_state job.state
    then settle job db
    else let job' = yield_to newer.id job in (put_job job' db, job')

-- `_apply_patchset_ordering`, with the job as it stands afterwards.
unfoldable pub apply_patchset_ordering : Job → Db → Db × Job
unfolding newest order_after
apply_patchset_ordering job db =
    if state_eq job.state skipped_scope
    then (db, job)
    else order_after (newest (is_newer job) db.jobs) job db

-- What `enqueue` does once it knows whether the row is there.
unfoldable pub enqueue_row :
    Option Job → Option ManagedProject → ℕ → GerritPatchsetEvent → Name → Db → Db × Job × Bool
unfolding apply_patchset_ordering out_of_scope revives new_job revive put_job
enqueue_row none scope now event version db =
    let job = new_job now db.next_id event version (out_of_scope scope event) in
    let inserted = record db { jobs = db.jobs ++ job ∷ []; next_id = suc db.next_id } in
    let (db', job') = apply_patchset_ordering job inserted in (db', job', true)
enqueue_row (some found) scope now event version db =
    let job = if revives scope found then revive now found else found in
    let (db', job') = apply_patchset_ordering job (put_job job db) in (db', job', false)

-- `JobStore.enqueue`: the job, and whether it was created.
unfoldable pub enqueue : ℕ → GerritPatchsetEvent → Name → Db → Db × Job × Bool
unfolding enqueue_row
enqueue now event version db =
    enqueue_row (find? (same_identity event version) db.jobs) (scope_of event.project db) now event
      version db
