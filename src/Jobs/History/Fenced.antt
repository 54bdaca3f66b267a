-- ===== src/Jobs/History/Fenced.antt =====
-- The leases of src/pe_review_agent/jobs/store.py over a step: who may change what.
use pe_review_agent.Domain.{JobState, Name}
use pe_review_agent.Jobs.History.{
  Step, advanced, attempt_finished, attempt_started, claimed, enqueued, finalized, given_up,
  guarded, overtaken, promoted, publication_begun, publication_marked, renewed, requeued, retried,
  vote_dispatched, vote_ensured, vote_finished, vote_retried,
}
use pe_review_agent.Jobs.Rows.{
  Db, ErrorValue, Job, Publication, ReviewVote, StoreError, VoteStatus, invalid_retry_target,
}
use pe_review_agent.Jobs.StateMachine.{valid_retry_target}
use pe_review_agent.Jobs.Store.{find_job, on_job, on_job-ok, require_live_lease}
use pe_review_agent.Jobs.Store.Fencing.{Holds, require_live_lease-Holds}
use pe_review_agent.Jobs.Store.Lifecycle.{
  mark_failed_permanent, mark_failed_permanent_row, save_ready_row,
  save_review_result_and_mark_ready, schedule_retry, schedule_retry_row, transition, transition_row,
}
use pe_review_agent.Jobs.Store.Publications.{JobIdentity, begin_publication, begin_row}
use pe_review_agent.Jobs.Store.Tame.{advance_target}
use pe_review_agent.Jobs.Store.Worked.{tested}
use pe_review_agent.Jobs.Votes.{VoteDecision, dispatch, ensure, finish, guard_vote, retry}
use pe_review_agent.Jobs.Votes.Kept.{finish-ok, guard_vote-ok}
use pe_review_agent.Prelude.{
  Bool, Option, String, none, none_ne, refl, some, some_inj, subst, ℕ, ◌≡◌,
}
use pe_review_agent.Prelude.Result.{>>=-eq-ok, Result, ok, ◌>>=◌, ◌>>◌}

-- The time, the job and the worker of a step that needs a lease.
unfoldable pub author :
    {digest : JobIdentity → Name → Name} {db db' : Db} → Step digest db db' → Option (ℕ × ℕ × Name)
author (advanced now i to worker release db db' r h) = some (now, i, worker)
author (retried now i resume at error worker db db' r fits h) = some (now, i, worker)
author (given_up now i error worker db db' r h) = some (now, i, worker)
author (promoted now i worker db db' r fits h) = some (now, i, worker)
author (publication_begun now i worker payload db db' p h) = some (now, i, worker)
author (vote_ensured now i worker decision payload db db' v h) = some (now, i, worker)
author (vote_dispatched now i worker account db db' v h) = some (now, i, worker)
author (vote_retried now i worker error db db' v h) = some (now, i, worker)
author (vote_finished now i worker status response error account db db' u h) = some (now, i, worker)
author _ = none

-- The job is there, and the worker holds a live lease on it.
pub record IsFenced (now i : ℕ) (worker : Name) (db : Db) : Type 0 where
  pub job : Job
  pub found : find_job i db ≡ some job
  pub held : Holds now worker job

fenced :
    (now i : ℕ) (worker : Name) (db : Db) (job : Job)
    → find_job i db ≡ some job
    → require_live_lease now job worker ≡ ok tt
    → IsFenced now i worker db
fenced now i worker db job f l = record {
  job = job;
  found = f;
  held = (require_live_lease-Holds now worker job).0 l;
}

-- A change of a row that starts with `_require_live_lease`.
on_job-IsFenced :
    (now i : ℕ) (worker : Name) (change : Job → Result StoreError Job) (db db' : Db) (r : Job)
    → ((job : Job) → change job ≡ ok r → require_live_lease now job worker ≡ ok tt)
    → on_job i change db ≡ ok (db', r)
    → IsFenced now i worker db
on_job-IsFenced now i worker change db db' r leased h =
    let (job, f, c, s) = on_job-ok i change db db' r h in
    fenced now i worker db job f (leased job c)

checked :
    {A : Type 0} (now : ℕ) (worker : Name) (job : Job) (rest : Result StoreError A) (x : A)
    → (require_live_lease now job worker >> rest) ≡ ok x
    → require_live_lease now job worker ≡ ok tt
checked now worker job rest x h =
    let (u, e, f) = >>=-eq-ok (require_live_lease now job worker) _ h in e

voting-IsFenced :
    {A : Type 0} (now i : ℕ) (worker : Name) (db : Db) (f : Job → Result StoreError A) (x : A)
    → (guard_vote now worker (find_job i db) >>= f) ≡ ok x
    → IsFenced now i worker db
voting-IsFenced now i worker db f x h =
    let (job, e, g) = >>=-eq-ok (guard_vote now worker (find_job i db)) f h in
    let (found, p, l) = guard_vote-ok now worker (find_job i db) job e in
    fenced now i worker db job found l

advanced-IsFenced :
    (now i : ℕ) (target : JobState) (worker : Name) (release : Bool) (db db' : Db) (r : Job)
    → transition now i target worker release db ≡ ok (db', r)
    → IsFenced now i worker db
unfolding transition transition_row
advanced-IsFenced now i target worker release db db' r h =
    on_job-IsFenced now i worker (transition_row now target worker release) db db' r
      (λ job c. checked now worker job _ r c) h

retried-IsFenced :
    (now i : ℕ) (resume : JobState) (at : ℕ) (error : ErrorValue) (worker : Name) (db db' : Db)
    (r : Job)
    → schedule_retry now i resume at error worker db ≡ ok (db', r)
    → IsFenced now i worker db
unfolding schedule_retry schedule_retry_row
retried-IsFenced now i resume at error worker db db' r h =
    let (t, e) =
      tested (valid_retry_target resume) (invalid_retry_target resume)
        (on_job i (schedule_retry_row now resume at error worker) db) (db', r) h in
    on_job-IsFenced now i worker (schedule_retry_row now resume at error worker) db db' r
      (λ job c. checked now worker job _ r c) e

given_up-IsFenced :
    (now i : ℕ) (error : ErrorValue) (worker : Name) (db db' : Db) (r : Job)
    → mark_failed_permanent now i error worker db ≡ ok (db', r)
    → IsFenced now i worker db
unfolding mark_failed_permanent mark_failed_permanent_row
given_up-IsFenced now i error worker db db' r h =
    on_job-IsFenced now i worker (mark_failed_permanent_row now error worker) db db' r
      (λ job c. checked now worker job _ r c) h

promoted-IsFenced :
    (now i : ℕ) (worker : Name) (db db' : Db) (r : Job)
    → save_review_result_and_mark_ready now i worker db ≡ ok (db', r)
    → IsFenced now i worker db
unfolding save_review_result_and_mark_ready save_ready_row
promoted-IsFenced now i worker db db' r h =
    let ((db1, b), e, f) = >>=-eq-ok (on_job i (save_ready_row now worker db) db) _ h in
    on_job-IsFenced now i worker (save_ready_row now worker db) db db1 b
      (λ job c. checked now worker job _ b c) e

module _ (digest : JobIdentity → Name → Name) where
  begin_row-IsFenced :
      (now i : ℕ) (worker payload : Name) (o : Option Job) (db : Db) (x : Db × Publication)
      → find_job i db ≡ o
      → begin_row digest now i worker payload o db ≡ ok x
      → IsFenced now i worker db
  unfolding begin_row
  begin_row-IsFenced now i worker payload none db x f h = cc
  begin_row-IsFenced now i worker payload (some job) db x f h =
      fenced now i worker db job f (checked now worker job _ x h)

  begun-IsFenced :
      (now i : ℕ) (worker payload : Name) (db : Db) (x : Db × Publication)
      → begin_publication digest now i worker payload db ≡ ok x
      → IsFenced now i worker db
  unfolding begin_publication
  begun-IsFenced now i worker payload db x h =
      begin_row-IsFenced now i worker payload (find_job i db) db x refl h

ensured-IsFenced :
    (now i : ℕ) (worker : Name) (decision : VoteDecision) (payload : Name) (db : Db)
    (x : Db × ReviewVote)
    → ensure now i worker decision payload db ≡ ok x
    → IsFenced now i worker db
unfolding ensure
ensured-IsFenced now i worker decision payload db x h = voting-IsFenced now i worker db _ x h

dispatched-IsFenced :
    (now i : ℕ) (worker : Name) (account : ℕ) (db : Db) (x : Db × ReviewVote)
    → dispatch now i worker account db ≡ ok x
    → IsFenced now i worker db
unfolding dispatch
dispatched-IsFenced now i worker account db x h = voting-IsFenced now i worker db _ x h

vote_retried-IsFenced :
    (now i : ℕ) (worker : Name) (error : String) (db : Db) (x : Db × ReviewVote)
    → retry now i worker error db ≡ ok x
    → IsFenced now i worker db
unfolding retry
vote_retried-IsFenced now i worker error db x h = voting-IsFenced now i worker db _ x h

vote_finished-IsFenced :
    (now i : ℕ) (worker : Name) (status : VoteStatus) (response : Option Name)
    (error : Option String) (account : Option ℕ) (db db' : Db) (u : Unit {0})
    → finish now i worker status response error account db ≡ ok (db', u)
    → IsFenced now i worker db
vote_finished-IsFenced now i worker status response error account db db' u h =
    let (job, v, e, c, f, s) = finish-ok now i worker status response error account db db' u h in
    let (found, p, l) = guard_vote-ok now worker (find_job i db) job e in
    fenced now i worker db job found l

-- The parts of an author.
same_author :
    (db : Db) (now now' i i' : ℕ) (worker worker' : Name)
    → ◌≡◌ {A = Option (ℕ × ℕ × Name)} (some (now, i, worker)) (some (now', i', worker'))
    → IsFenced now i worker db
    → IsFenced now' i' worker' db
same_author db now now' i i' worker worker' e f =
    subst (λ (x : ℕ × ℕ × Name). IsFenced x.0 x.1 x.2 db) (some_inj e) f

-- Each transaction with which a worker advances a job, schedules its retry, gives it up, saves its
-- review, begins its publication or changes its vote commits only while that worker holds a live
-- lease on the job.
pub Step-IsFenced :
    (digest : JobIdentity → Name → Name) (now i : ℕ) (worker : Name) (db db' : Db)
    (s : Step digest db db')
    → author s ≡ some (now, i, worker)
    → IsFenced now i worker db
unfolding author
Step-IsFenced digest now i worker _ _ (advanced n j to w release db db' r h) e =
    same_author db n now j i w worker e
      (advanced-IsFenced n j (advance_target to) w release db db' r h)
Step-IsFenced digest now i worker _ _ (retried n j resume at error w db db' r fits h) e =
    same_author db n now j i w worker e (retried-IsFenced n j resume at error w db db' r h)
Step-IsFenced digest now i worker _ _ (given_up n j error w db db' r h) e =
    same_author db n now j i w worker e (given_up-IsFenced n j error w db db' r h)
Step-IsFenced digest now i worker _ _ (promoted n j w db db' r fits h) e =
    same_author db n now j i w worker e (promoted-IsFenced n j w db db' r h)
Step-IsFenced digest now i worker _ _ (publication_begun n j w payload db db' p h) e =
    same_author db n now j i w worker e (begun-IsFenced digest n j w payload db (db', p) h)
Step-IsFenced digest now i worker _ _ (vote_ensured n j w decision payload db db' v h) e =
    same_author db n now j i w worker e (ensured-IsFenced n j w decision payload db (db', v) h)
Step-IsFenced digest now i worker _ _ (vote_dispatched n j w account db db' v h) e =
    same_author db n now j i w worker e (dispatched-IsFenced n j w account db (db', v) h)
Step-IsFenced digest now i worker _ _ (vote_retried n j w error db db' v h) e =
    same_author db n now j i w worker e (vote_retried-IsFenced n j w error db (db', v) h)
Step-IsFenced digest now i worker _ _ (vote_finished n j w status response error account db db' u h)
      e =
    same_author db n now j i w worker e
      (vote_finished-IsFenced n j w status response error account db db' u h)
Step-IsFenced digest now i worker _ _ (enqueued n event version db) e = none_ne e
Step-IsFenced digest now i worker _ _ (claimed n w lease db) e = none_ne e
Step-IsFenced digest now i worker _ _ (renewed n j w lease db) e = none_ne e
Step-IsFenced digest now i worker _ _ (guarded n j w lease db) e = none_ne e
Step-IsFenced digest now i worker _ _ (overtaken n j w by db db' r h) e = none_ne e
Step-IsFenced digest now i worker _ _ (requeued n j db db' r h) e = none_ne e
Step-IsFenced digest now i worker _ _ (attempt_started n j stage w db db' a h) e = none_ne e
Step-IsFenced digest now i worker _ _ (attempt_finished n a success retryable error db db' u h) e =
    none_ne e
Step-IsFenced digest now i worker _ _ (publication_marked p change db db' u h) e = none_ne e
Step-IsFenced digest now i worker _ _ (finalized n p j w response defer db db' r h) e = none_ne e
