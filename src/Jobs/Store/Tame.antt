-- ===== src/Jobs/Store/Tame.antt =====
-- Each change that src/pe_review_agent/jobs/store.py makes to one row is tame: it keeps what
-- identifies the job, and reopens nothing.
use pe_review_agent.Domain.{
  JobState, Name, done, fetching, is_terminal_state, publishing, ready_to_publish, retry_wait,
  reviewing, validating,
}
use pe_review_agent.Jobs.Rows.{Db, ErrorValue, Job}
use pe_review_agent.Jobs.Store.Enqueue.{yield_to}
use pe_review_agent.Jobs.Store.Leases.{take_claim}
use pe_review_agent.Jobs.Store.Lifecycle.{
  mark_failed_permanent_row, mark_superseded_row, save_ready_row, schedule_retry_row,
  transition_row,
}
use pe_review_agent.Jobs.Store.Order.{Tames, is_open, is_reviewable}
use pe_review_agent.Jobs.Store.Publications.{finalize_row}
use pe_review_agent.Prelude.{Bool, Option, arith, false, inl, inr, none, true, ℕ, ◌≡◌, ◌≢◌, ◌⊎◌}
use pe_review_agent.Prelude.Result.{ok}

-- The targets with which the worker calls `JobStore.transition`.
pub data Advance : Type 0 where
  to_fetching to_reviewing to_validating to_publishing to_done : Advance

unfoldable pub advance_target : Advance → JobState
advance_target to_fetching = fetching
advance_target to_reviewing = reviewing
advance_target to_validating = validating
advance_target to_publishing = publishing
advance_target to_done = done

-- A leased job does not wait for a retry.
abbrev pub Awake : Job → Type 0
Awake job = job.state ≡ retry_wait → job.lease_owner ≡ none

pub transition_row-Tames :
    (now : ℕ) (to : Advance) (worker : Name) (release : Bool) (job job' : Job)
    → Awake job
    → transition_row now (advance_target to) worker release job ≡ ok job'
    → Tames job job'
unfolding transition_row is_reviewable is_open advance_target
transition_row-Tames now to_fetching worker release job job' w e = ground arith
transition_row-Tames now to_reviewing worker release job job' w e = ground arith
transition_row-Tames now _ worker release job job' w e = ground arith

pub schedule_retry_row-Tames :
    (now : ℕ) (at : ℕ) (resume : JobState) (error : ErrorValue) (worker : Name) (job job' : Job)
    → Awake job
    → (resume ≡ job.state) ⊎ ((resume ≡ publishing) × (job.state ≡ ready_to_publish))
    → schedule_retry_row now resume at error worker job ≡ ok job'
    → Tames job job'
unfolding schedule_retry_row is_reviewable is_open
schedule_retry_row-Tames now at resume error worker job job' w (inl r) e = ground arith
schedule_retry_row-Tames now at resume error worker job job' w (inr r) e = ground arith

pub mark_failed_permanent_row-Tames :
    (now : ℕ) (error : ErrorValue) (worker : Name) (job job' : Job)
    → mark_failed_permanent_row now error worker job ≡ ok job'
    → Tames job job'
unfolding mark_failed_permanent_row is_reviewable is_open
mark_failed_permanent_row-Tames now error worker job job' e = ground arith

pub mark_superseded_row-Tames :
    (now : ℕ) (worker : Name) (by : Option ℕ) (job job' : Job)
    → mark_superseded_row now worker by job ≡ ok job'
    → Tames job job'
unfolding mark_superseded_row is_reviewable is_open
mark_superseded_row-Tames now worker by job job' e = ground arith

pub save_ready_row-Tames :
    (now : ℕ) (worker : Name) (db : Db) (job job' : Job)
    → job.state ≢ publishing
    → Awake job
    → save_ready_row now worker db job ≡ ok job'
    → Tames job job'
unfolding save_ready_row is_reviewable is_open
save_ready_row-Tames now worker db job job' n w e = ground arith

pub take_claim-Tames :
    (now lease : ℕ) (worker : Name) (job : Job)
    → is_terminal_state job.state ≡ false
    → Tames job (take_claim now lease worker job).0
unfolding take_claim is_reviewable is_open
take_claim-Tames now lease worker job t = ground arith

pub yield_to-Tames : (newer : ℕ) (job : Job) → Tames job (yield_to newer job)
unfolding yield_to is_reviewable is_open
yield_to-Tames newer job = ground arith

pub finalize_row-Tames :
    (defer : Bool) (job : Job)
    → (defer ≡ true → job.state ≡ publishing)
    → Tames job (finalize_row defer job)
unfolding finalize_row is_reviewable is_open
finalize_row-Tames defer job h = ground arith

pub lease_only-Tames :
    (expires : Option ℕ) (job : Job) → Tames job (record job { lease_expires_at = expires })
unfolding is_reviewable is_open
lease_only-Tames expires job = ground arith
