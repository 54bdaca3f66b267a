-- ===== src/Jobs/Store/Worked.antt =====
-- src/pe_review_agent/jobs/store.py: each transaction of the worker on its own job keeps the table
-- valid.
use pe_review_agent.Domain.{JobState, Name, publishing, ready_to_publish, retry_wait}
use pe_review_agent.Jobs.Rows.{Db, ErrorValue, Job, StoreError, invalid_retry_target}
use pe_review_agent.Jobs.StateMachine.{valid_retry_target}
use pe_review_agent.Jobs.Store.{find_job, on_job}
use pe_review_agent.Jobs.Store.Lifecycle.{
  mark_failed_permanent, mark_failed_permanent_row, mark_superseded, mark_superseded_row,
  save_ready_row, save_review_result_and_mark_ready, schedule_retry, schedule_retry_row, transition,
  transition_row,
}
use pe_review_agent.Jobs.Store.Soundness.{
  mark_failed_permanent_row-IsSound, mark_superseded_row-IsSound, save_ready_row-IsSound,
  schedule_retry_row-IsSound, transition_row-IsSound,
}
use pe_review_agent.Jobs.Store.Tame.{
  Advance, advance_target, mark_failed_permanent_row-Tames, mark_superseded_row-Tames,
  save_ready_row-Tames, schedule_retry_row-Tames, to_done, to_fetching, to_publishing, to_reviewing,
  to_validating, transition_row-Tames,
}
use pe_review_agent.Jobs.Store.Validity.{
  IsValid, IsValid-of_same_jobs, on_job-IsValid, on_job-found-IsValid,
}
use pe_review_agent.Prelude.{
  Bool, List, Option, arith, false, if◌then◌else◌, refl, some, true, ℕ, ◌≡◌, ◌≢◌, ◌≤◌, ◌⊎◌,
}
use pe_review_agent.Prelude.Result.{>>=-eq-ok, Result, err, ok}

-- What the worker resumes in: the state of the job, or PUBLISHING for one that is ready.
abbrev pub Resumes : JobState → Job → Type 0
Resumes resume job = (resume ≡ job.state) ⊎ ((resume ≡ publishing) × (job.state ≡ ready_to_publish))

moves : (to : Advance) → advance_target to ≢ retry_wait
unfolding advance_target
moves to_fetching h = cc
moves to_reviewing h = cc
moves to_validating h = cc
moves to_publishing h = cc
moves to_done h = cc

pub transition-IsValid :
    (now i : ℕ) (to : Advance) (worker : Name) (release : Bool) (db db' : Db) (r : Job)
    → transition now i (advance_target to) worker release db ≡ ok (db', r)
    → IsValid db
    → IsValid db'
unfolding transition
transition-IsValid now i to worker release db db' r h v =
    on_job-IsValid i (transition_row now (advance_target to) worker release) db db' r
      (λ job job' s e. (
        transition_row-IsSound now (advance_target to) worker release job job' (moves to) s e,
        transition_row-Tames now to worker release job job' s.awake e,
      ))
      h v

retried-IsValid :
    (now i : ℕ) (resume : JobState) (at : ℕ) (error : ErrorValue) (worker : Name) (db db' : Db)
    (r : Job)
    → ((job : Job) → find_job i db ≡ some job → Resumes resume job)
    → valid_retry_target resume ≡ true
    → on_job i (schedule_retry_row now resume at error worker) db ≡ ok (db', r)
    → IsValid db
    → IsValid db'
retried-IsValid now i resume at error worker db db' r fits t h v =
    on_job-found-IsValid i (schedule_retry_row now resume at error worker) db db' r
      (λ job job' f s e. (
        schedule_retry_row-IsSound now resume at error worker job job' t s e,
        schedule_retry_row-Tames now at resume error worker job job' s.awake (fits job f) e,
      ))
      h v

-- The test in front of a transaction.
pub tested :
    (b : Bool) (e : StoreError) (m : Result StoreError (Db × Job)) (x : Db × Job)
    → (if b then m else err e) ≡ ok x
    → (b ≡ true) × (m ≡ ok x)
tested true e m x h = (refl, h)
tested false e m x h = cc

pub schedule_retry-IsValid :
    (now i : ℕ) (resume : JobState) (at : ℕ) (error : ErrorValue) (worker : Name) (db db' : Db)
    (r : Job)
    → ((job : Job) → find_job i db ≡ some job → Resumes resume job)
    → schedule_retry now i resume at error worker db ≡ ok (db', r)
    → IsValid db
    → IsValid db'
unfolding schedule_retry
schedule_retry-IsValid now i resume at error worker db db' r fits h v =
    let (t, e) =
      tested (valid_retry_target resume) (invalid_retry_target resume)
        (on_job i (schedule_retry_row now resume at error worker) db) (db', r) h in
    retried-IsValid now i resume at error worker db db' r fits t e v

pub mark_failed_permanent-IsValid :
    (now i : ℕ) (error : ErrorValue) (worker : Name) (db db' : Db) (r : Job)
    → mark_failed_permanent now i error worker db ≡ ok (db', r)
    → IsValid db
    → IsValid db'
unfolding mark_failed_permanent
mark_failed_permanent-IsValid now i error worker db db' r h v =
    on_job-IsValid i (mark_failed_permanent_row now error worker) db db' r
      (λ job job' s e. (
        mark_failed_permanent_row-IsSound now error worker job job' s e,
        mark_failed_permanent_row-Tames now error worker job job' e,
      ))
      h v

pub mark_superseded-IsValid :
    (now i : ℕ) (worker : Name) (by : Option ℕ) (db db' : Db) (r : Job)
    → mark_superseded now i worker by db ≡ ok (db', r)
    → IsValid db
    → IsValid db'
unfolding mark_superseded
mark_superseded-IsValid now i worker by db db' r h v =
    on_job-IsValid i (mark_superseded_row now worker by) db db' r
      (λ job job' s e. (
        mark_superseded_row-IsSound now worker by job job' s e,
        mark_superseded_row-Tames now worker by job job' e,
      ))
      h v

promoted_jobs :
    (rs : List ℕ) (db1 db' : Db) (b job : Job)
    → ◌≡◌ {A = Result StoreError (Db × Job)} (ok (record db1 { results = rs }, b)) (ok (db', job))
    → IsValid db1
    → IsValid db'
promoted_jobs rs db1 db' b job f v =
    let n : db1.next_id ≤ db'.next_id = ground arith in IsValid-of_same_jobs db1 db' (cc) n v

pub save_review_result_and_mark_ready-IsValid :
    (now i : ℕ) (worker : Name) (db db' : Db) (r : Job)
    → ((job : Job) → find_job i db ≡ some job → job.state ≢ publishing)
    → save_review_result_and_mark_ready now i worker db ≡ ok (db', r)
    → IsValid db
    → IsValid db'
unfolding save_review_result_and_mark_ready
save_review_result_and_mark_ready-IsValid now i worker db db' r fits h v =
    let ((db1, b), e, f) = >>=-eq-ok (on_job i (save_ready_row now worker db) db) _ h in
    promoted_jobs _ db1 db' b r f (
      on_job-found-IsValid i (save_ready_row now worker db) db db1 b
        (λ job job' found s c. (
          save_ready_row-IsSound now worker db job job' s c,
          save_ready_row-Tames now worker db job job' (fits job found) s.awake c,
        ))
        e v)
