-- ===== src/Jobs/Store/Soundness.antt =====
-- What holds of every row of review_jobs between two transactions of
-- src/pe_review_agent/jobs/store.py, and that each change of a row keeps it.
use pe_review_agent.Domain.{
  GerritPatchsetEvent, JobState, Name, is_terminal_state, retry_wait, skipped_scope,
}
use pe_review_agent.Jobs.Rows.{Db, ErrorValue, Job}
use pe_review_agent.Jobs.StateMachine.{is_resumable, valid_retry_target}
use pe_review_agent.Jobs.Store.Enqueue.{new_job, revive, yield_to}
use pe_review_agent.Jobs.Store.Leases.{lease_free, take_claim}
use pe_review_agent.Jobs.Store.Lifecycle.{
  mark_failed_permanent_row, mark_superseded_row, requeue_row, save_ready_row, schedule_retry_row,
  transition_row,
}
use pe_review_agent.Jobs.Store.Publications.{finalize_row}
use pe_review_agent.Prelude.{
  Bool, Option, arith, false, is_none, none, some, true, ℕ, ◌≡◌, ◌≢◌, ◌≤◌,
}
use pe_review_agent.Prelude.Result.{ok}

-- RETRY_WAIT has a target, and a stored target is a valid one.
abbrev pub retry_target_fits : JobState → Option JobState → Bool
retry_target_fits retry_wait none = false
retry_target_fits s none = true
retry_target_fits s (some t) = is_resumable t

pub record IsSound (job : Job) : Type 0 where
  pub target : retry_target_fits job.state job.retry_state ≡ true
  pub unowned : is_terminal_state job.state ≡ true → job.lease_owner ≡ none
  pub awake : job.state ≡ retry_wait → job.lease_owner ≡ none
  pub paired : is_none job.lease_owner ≡ is_none job.lease_expires_at
  pub epoch : job.retry_epoch_start_attempt ≤ job.attempt_count

pub transition_row-IsSound :
    (now : ℕ) (target : JobState) (worker : Name) (release : Bool) (job job' : Job)
    → target ≢ retry_wait
    → IsSound job
    → transition_row now target worker release job ≡ ok job'
    → IsSound job'
unfolding transition_row
transition_row-IsSound now target worker release job job' n h e = ground arith

pub schedule_retry_row-IsSound :
    (now : ℕ) (resume : JobState) (at : ℕ) (error : ErrorValue) (worker : Name) (job job' : Job)
    → valid_retry_target resume ≡ true
    → IsSound job
    → schedule_retry_row now resume at error worker job ≡ ok job'
    → IsSound job'
unfolding schedule_retry_row valid_retry_target
schedule_retry_row-IsSound now resume at error worker job job' v h e = ground arith

pub mark_failed_permanent_row-IsSound :
    (now : ℕ) (error : ErrorValue) (worker : Name) (job job' : Job)
    → IsSound job
    → mark_failed_permanent_row now error worker job ≡ ok job'
    → IsSound job'
unfolding mark_failed_permanent_row
mark_failed_permanent_row-IsSound now error worker job job' h e = ground arith

pub mark_superseded_row-IsSound :
    (now : ℕ) (worker : Name) (by : Option ℕ) (job job' : Job)
    → IsSound job
    → mark_superseded_row now worker by job ≡ ok job'
    → IsSound job'
unfolding mark_superseded_row
mark_superseded_row-IsSound now worker by job job' h e = ground arith

pub save_ready_row-IsSound :
    (now : ℕ) (worker : Name) (db : Db) (job job' : Job)
    → IsSound job
    → save_ready_row now worker db job ≡ ok job'
    → IsSound job'
unfolding save_ready_row
save_ready_row-IsSound now worker db job job' h e = ground arith

pub requeue_row-IsSound :
    (now : ℕ) (db : Db) (job job' : Job)
    → IsSound job
    → requeue_row now db job ≡ ok job'
    → IsSound job'
unfolding requeue_row
requeue_row-IsSound now db job job' h e = ground arith

pub take_claim-IsSound :
    (now lease : ℕ) (worker : Name) (job : Job)
    → is_terminal_state job.state ≡ false
    → lease_free now job ≡ true
    → IsSound job
    → IsSound (take_claim now lease worker job).0
unfolding take_claim
take_claim-IsSound now lease worker job t f h = ground arith

pub yield_to-IsSound : (newer : ℕ) (job : Job) → IsSound job → IsSound (yield_to newer job)
unfolding yield_to
yield_to-IsSound newer job h = ground arith

pub new_job-IsSound :
    (now i : ℕ) (event : GerritPatchsetEvent) (version : Name) (out : Bool)
    → IsSound (new_job now i event version out)
unfolding new_job
new_job-IsSound now i event version out = ground arith

pub revive-IsSound :
    (now : ℕ) (job : Job) → IsSound job → job.state ≡ skipped_scope → IsSound (revive now job)
unfolding revive
revive-IsSound now job h s = ground arith

pub finalize_row-IsSound :
    (defer : Bool) (job : Job) → IsSound job → IsSound (finalize_row defer job)
unfolding finalize_row
finalize_row-IsSound defer job h = ground arith
