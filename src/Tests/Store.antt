-- ===== src/Tests/Store.antt =====
-- The theorems on the job store and the votes, applied to the scenario.
use pe_review_agent.Domain.{done, failed_permanent, fetch, publishing}
use pe_review_agent.Jobs.History.{empty-IsValid}
use pe_review_agent.Jobs.Rows.{
  Db, Job, Publication, PublicationStatus, ReviewVote, VoteStatus, empty, message, zero_findings,
}
use pe_review_agent.Jobs.Store.{find_job, is_newer, require_live_lease}
use pe_review_agent.Jobs.Store.Attempts.{
  count_consumed_retry_attempts, finish_attempt, is_consumed, start_attempt, start_row,
}
use pe_review_agent.Jobs.Store.Budget.{ResumesIn, requeue_failed_budget}
use pe_review_agent.Jobs.Store.Durable.{complete_publication_and_mark_done_replay}
use pe_review_agent.Jobs.Store.Enqueue.{enqueue, new_job}
use pe_review_agent.Jobs.Store.Enqueued.{enqueue-IsValid}
use pe_review_agent.Jobs.Store.Fencing.{Holds, require_live_lease-Holds}
use pe_review_agent.Jobs.Store.Guarded.{MayPost, refresh_publish_guard-MayPost}
use pe_review_agent.Jobs.Store.Handed.{IsHanded, claim_next-IsHanded, claim_next_leaves}
use pe_review_agent.Jobs.Store.Intent.{begin_publication_once}
use pe_review_agent.Jobs.Store.Kept.{claim_next-IsValid}
use pe_review_agent.Jobs.Store.Leases.{claim_next, guard_ok, refresh_publish_guard}
use pe_review_agent.Jobs.Store.Lifecycle.{
  mark_failed_permanent, publication_of, requeue_failed, save_review_result_and_mark_ready,
  transition,
}
use pe_review_agent.Jobs.Store.Publications.{
  begin_publication, complete_publication_and_mark_done, publication_fingerprint,
}
use pe_review_agent.Jobs.Store.Validity.{IsValid}
use pe_review_agent.Jobs.Store.Watermarks.{
  advance_service_watermark, advance_service_watermark_later, get_service_watermark, later_of,
}
use pe_review_agent.Jobs.Votes.{
  comments_durable, dispatch, ensure, find_vote, finish, is_terminal_vote,
}
use pe_review_agent.Jobs.Votes.Closed.{finish_closed}
use pe_review_agent.Prelude.{
  [], any, arith, count_where, false, find?, none, refl, replace_first, some, true, update_where,
  ◌↔◌, ◌∷◌, ◌≡◌,
}
use pe_review_agent.Prelude.Result.{ok}
use pe_review_agent.Tests.Scenario.{
  arrived, database, digest, event, initial, intended, present, publishing_now, taken,
  vote_intended,
}

arrived-IsValid : IsValid arrived
arrived-IsValid = enqueue-IsValid 10 (event 1) 5 initial (empty-IsValid [])

taken-IsValid : IsValid taken
taken-IsValid = claim_next-IsValid 20 9 100 arrived arrived-IsValid

abbrev some_job : Job
some_job = new_job 0 0 (event 1) 5 false

abbrev job_at : Db → Job
job_at db = present some_job (find_job 0 db)

claim_next-IsHanded_example : IsHanded 20 9 100 arrived (job_at taken)
unfolding enqueue claim_next find? update_where any replace_first count_where find_job
claim_next-IsHanded_example =
    claim_next-IsHanded 20 9 100 arrived (job_at taken) arrived-IsValid refl

claim_next_leaves_example : find_job 0 (claim_next 40 8 100 taken).0 ≡ some (job_at taken)
unfolding enqueue claim_next find? update_where any replace_first count_where find_job
claim_next_leaves_example =
    claim_next_leaves 40 8 100 taken 0 (job_at taken) taken-IsValid refl refl

require_live_lease-Holds_example :
    (require_live_lease 21 (job_at taken) 9 ≡ ok tt) ↔ Holds 21 9 (job_at taken)
require_live_lease-Holds_example = require_live_lease-Holds 21 9 (job_at taken)

refresh_publish_guard-MayPost_example :
    ((refresh_publish_guard 35 0 9 100 vote_intended).1 ≡ guard_ok) ↔ MayPost 35 0 9 vote_intended
refresh_publish_guard-MayPost_example = refresh_publish_guard-MayPost 35 0 9 100 vote_intended

-- A fetch that failed before the job did counts against the budget.
abbrev attempted_db : Db
attempted_db = database initial (start_attempt 21 0 fetch 9 taken)

abbrev finished_db : Db
finished_db =
    database initial
      (finish_attempt 24 1 false (some true) (some (message "connection reset")) attempted_db)

abbrev given_up_db : Db
given_up_db = database initial (mark_failed_permanent 25 0 (message "no such ref") 9 finished_db)

consumed_before : count_consumed_retry_attempts 0 fetch given_up_db ≡ 1
unfolding enqueue claim_next start_attempt start_row finish_attempt mark_failed_permanent
    count_consumed_retry_attempts is_consumed find_job find? update_where any replace_first
    count_where
consumed_before = refl

abbrev requeued_db : Db
requeued_db = database initial (requeue_failed 60 0 given_up_db)

requeue_failed_budget_example :
    ((job_at given_up_db).state ≡ failed_permanent)
    × (any (is_newer (job_at given_up_db)) given_up_db.jobs ≡ false)
    × ResumesIn 0 given_up_db (job_at requeued_db).state
    × ((job_at requeued_db).next_attempt_at ≡ 60)
    × (count_consumed_retry_attempts 0 fetch requeued_db ≡ 0)
unfolding enqueue claim_next start_attempt start_row finish_attempt mark_failed_permanent
    requeue_failed find_job find? update_where any replace_first count_where
requeue_failed_budget_example =
    requeue_failed_budget 60 0 fetch given_up_db requeued_db (job_at given_up_db)
      (job_at requeued_db) refl (omega arith) refl

abbrev completed : Db
completed = database initial (complete_publication_and_mark_done 34 1 0 9 (some 50) false intended)

complete_publication_and_mark_done_replay_example :
    complete_publication_and_mark_done 99 1 0 8 none false completed
    ≡ ok (completed, job_at completed)
unfolding enqueue claim_next transition save_review_result_and_mark_ready begin_publication
    complete_publication_and_mark_done find? update_where any replace_first count_where
complete_publication_and_mark_done_replay_example =
    complete_publication_and_mark_done_replay 34 99 1 0 9 8 (some 50) none intended completed
      (job_at completed) refl

abbrev intent : Publication
intent = record {
  id = 1;
  job_id = 0;
  publication_fingerprint = 141;
  status = PublicationStatus.pending;
  request_payload = 40;
  gerrit_response = none;
  last_error = none;
  posted_at = none;
}

begin_publication_once_example :
    (intent ≡ intent)
    × (intended ≡ intended)
    × ((job : Job) × (find_job 0 intended ≡ some job)
        × (publication_fingerprint digest job 40 ≡ publication_fingerprint digest job 40))
unfolding enqueue claim_next transition save_review_result_and_mark_ready begin_publication find?
    update_where any replace_first count_where
begin_publication_once_example =
    begin_publication_once digest 32 33 0 9 9 40 40 publishing_now intended intended intent intent
      refl refl

abbrev vote_sent : ReviewVote
vote_sent = record {
  job_id = 0;
  value = some 1;
  reason = zero_findings;
  finding_count = some 0;
  status = VoteStatus.ambiguous;
  account_id = some 77;
  attempts = 1;
  retry_count = 0;
  request_payload = 41;
  response = none;
  last_error = none;
}

abbrev ballot : Db
ballot = record empty {
  jobs =
      record some_job { state = publishing; lease_owner = some 9; lease_expires_at = some 200 }
      ∷ [];
  publications = record intent { status = PublicationStatus.posted; posted_at = some 34 } ∷ [];
  votes = vote_sent ∷ [];
  next_id = 2;
}

abbrev voted : Db
voted = database initial (finish 36 0 9 VoteStatus.applied (some 51) none (some 77) ballot)

finish_closed_example :
    (comments_durable (publication_of 0 ballot) ≡ true)
    × ((job : Job) × (find_job 0 voted ≡ some job) × (job.state ≡ done) × (job.lease_owner ≡ none))
    × ((v : ReviewVote) × (find_vote 0 voted ≡ some v)
        × (is_terminal_vote v.status ≡ true)
        × (is_terminal_vote vote_sent.status ≡ true → v ≡ vote_sent)
        × (v.value ≡ vote_sent.value)
        × (v.attempts ≡ vote_sent.attempts))
unfolding enqueue claim_next transition save_review_result_and_mark_ready begin_publication ensure
    complete_publication_and_mark_done dispatch finish find? update_where any replace_first
    count_where
finish_closed_example =
    finish_closed 36 0 9 VoteStatus.applied (some 51) none (some 77) ballot voted tt vote_sent refl
      refl

abbrev mark : Db
mark = advance_service_watermark 3 500 initial

advance_service_watermark_later_example :
    get_service_watermark 3 (advance_service_watermark 3 400 mark)
    ≡ some (later_of (get_service_watermark 3 mark) 400)
advance_service_watermark_later_example = advance_service_watermark_later 3 400 mark
