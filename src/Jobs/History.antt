-- ===== src/Jobs/History.antt =====
-- The transactions of src/pe_review_agent/jobs/store.py and jobs/votes.py, in any order and by any
-- workers: a step is one of them committing, called the way src/pe_review_agent/service.py and
-- voting.py call it.
pub mod Fenced
use pe_review_agent.Domain.{AttemptStage, GerritPatchsetEvent, JobState, Name, publishing}
use pe_review_agent.Jobs.Rows.{
  Db, ErrorValue, Job, ManagedProject, Publication, ReviewVote, VoteStatus, empty,
}
use pe_review_agent.Jobs.Store.{find_job, same_change}
use pe_review_agent.Jobs.Store.Attempts.{finish_attempt, start_attempt}
use pe_review_agent.Jobs.Store.Enqueue.{enqueue}
use pe_review_agent.Jobs.Store.Enqueued.{enqueue-IsValid}
use pe_review_agent.Jobs.Store.Kept.{
  claim_next-IsValid, heartbeat-IsValid, refresh_publish_guard-IsValid,
}
use pe_review_agent.Jobs.Store.Leases.{claim_next, heartbeat, refresh_publish_guard}
use pe_review_agent.Jobs.Store.Lifecycle.{
  mark_failed_permanent, mark_superseded, requeue_failed, save_review_result_and_mark_ready,
  schedule_retry, transition,
}
use pe_review_agent.Jobs.Store.Order.{Yields, is_open, is_reviewable}
use pe_review_agent.Jobs.Store.Publications.{
  JobIdentity, begin_publication, complete_publication_and_mark_done, on_publication,
}
use pe_review_agent.Jobs.Store.Recorded.{
  begin_publication-IsValid, complete_publication_and_mark_done-IsValid, finish_attempt-IsValid,
  on_publication-IsValid, start_attempt-IsValid,
}
use pe_review_agent.Jobs.Store.Requeued.{requeue_failed-IsValid}
use pe_review_agent.Jobs.Store.Tame.{Advance, advance_target}
use pe_review_agent.Jobs.Store.Validity.{IsValid}
use pe_review_agent.Jobs.Store.Worked.{
  Resumes, mark_failed_permanent-IsValid, mark_superseded-IsValid,
  save_review_result_and_mark_ready-IsValid, schedule_retry-IsValid, transition-IsValid,
}
use pe_review_agent.Jobs.Votes.{VoteDecision, dispatch, ensure, finish, retry}
use pe_review_agent.Jobs.Votes.Kept.{
  dispatch-IsValid, ensure-IsValid, finish-IsValid, retry-IsValid,
}
use pe_review_agent.Prelude.{
  All, All-Elem, Bool, Elem, List, Option, String, arith, some, true, ℕ, ◌≡◌, ◌≢◌,
}
use pe_review_agent.Prelude.Result.{ok}

-- One committed transaction that may change the jobs, or the rows that they refer to.
pub data Step (digest : JobIdentity → Name → Name) : Db → Db → Type 0 where
  enqueued :
      (now : ℕ) (event : GerritPatchsetEvent) (version : Name) (db : Db)
      → Step digest db (enqueue now event version db).0
  claimed :
      (now : ℕ) (worker : Name) (lease : ℕ) (db : Db)
      → Step digest db (claim_next now worker lease db).0
  renewed :
      (now i : ℕ) (worker : Name) (lease : ℕ) (db : Db)
      → Step digest db (heartbeat now i worker lease db).0
  guarded :
      (now i : ℕ) (worker : Name) (lease : ℕ) (db : Db)
      → Step digest db (refresh_publish_guard now i worker lease db).0
  advanced :
      (now i : ℕ) (to : Advance) (worker : Name) (release : Bool) (db db' : Db) (r : Job)
      → transition now i (advance_target to) worker release db ≡ ok (db', r)
      → Step digest db db'
  retried :
      (now i : ℕ) (resume : JobState) (at : ℕ) (error : ErrorValue) (worker : Name) (db db' : Db)
      (r : Job)
      → ((job : Job) → find_job i db ≡ some job → Resumes resume job)
      → schedule_retry now i resume at error worker db ≡ ok (db', r)
      → Step digest db db'
  given_up :
      (now i : ℕ) (error : ErrorValue) (worker : Name) (db db' : Db) (r : Job)
      → mark_failed_permanent now i error worker db ≡ ok (db', r)
      → Step digest db db'
  overtaken :
      (now i : ℕ) (worker : Name) (by : Option ℕ) (db db' : Db) (r : Job)
      → mark_superseded now i worker by db ≡ ok (db', r)
      → Step digest db db'
  promoted :
      (now i : ℕ) (worker : Name) (db db' : Db) (r : Job)
      → ((job : Job) → find_job i db ≡ some job → job.state ≢ publishing)
      → save_review_result_and_mark_ready now i worker db ≡ ok (db', r)
      → Step digest db db'
  requeued :
      (now i : ℕ) (db db' : Db) (r : Job)
      → requeue_failed now i db ≡ ok (db', r)
      → Step digest db db'
  attempt_started :
      (now i : ℕ) (stage : AttemptStage) (worker : Name) (db db' : Db) (a : ℕ)
      → start_attempt now i stage worker db ≡ ok (db', a)
      → Step digest db db'
  attempt_finished :
      (now a : ℕ) (success : Bool) (retryable : Option Bool) (error : Option ErrorValue)
      (db db' : Db) (u : Unit {0})
      → finish_attempt now a success retryable error db ≡ ok (db', u)
      → Step digest db db'
  publication_begun :
      (now i : ℕ) (worker payload : Name) (db db' : Db) (p : Publication)
      → begin_publication digest now i worker payload db ≡ ok (db', p)
      → Step digest db db'
  publication_marked :
      (p : ℕ) (change : Publication → Publication) (db db' : Db) (u : Unit {0})
      → on_publication p change db ≡ ok (db', u)
      → Step digest db db'
  finalized :
      (now p i : ℕ) (worker : Name) (response : Option Name) (defer : Bool) (db db' : Db) (r : Job)
      → complete_publication_and_mark_done now p i worker response defer db ≡ ok (db', r)
      → Step digest db db'
  vote_ensured :
      (now i : ℕ) (worker : Name) (decision : VoteDecision) (payload : Name) (db db' : Db)
      (v : ReviewVote)
      → ensure now i worker decision payload db ≡ ok (db', v)
      → Step digest db db'
  vote_dispatched :
      (now i : ℕ) (worker : Name) (account : ℕ) (db db' : Db) (v : ReviewVote)
      → dispatch now i worker account db ≡ ok (db', v)
      → Step digest db db'
  vote_retried :
      (now i : ℕ) (worker : Name) (error : String) (db db' : Db) (v : ReviewVote)
      → retry now i worker error db ≡ ok (db', v)
      → Step digest db db'
  vote_finished :
      (now i : ℕ) (worker : Name) (status : VoteStatus) (response : Option Name)
      (error : Option String) (account : Option ℕ) (db db' : Db) (u : Unit {0})
      → finish now i worker status response error account db ≡ ok (db', u)
      → Step digest db db'

-- Any number of them, one after another.
pub data Run (digest : JobIdentity → Name → Name) : Db → Db → Type 0 where
  stop : (db : Db) → Run digest db db
  next : (db db1 db2 : Db) → Step digest db db1 → Run digest db1 db2 → Run digest db db2

-- The empty table is valid, whatever projects are managed.
pub empty-IsValid :
    (projects : List ManagedProject) → IsValid (record empty { projects = projects })
empty-IsValid projects = record { sound = tt; ids = tt; keys = tt; below = tt; ordered = tt }

settled :
    (a b : Job)
    → same_change a b ≡ true
    → is_reviewable a ≡ true
    → is_reviewable b ≡ true
    → Yields a b
    → Yields b a
    → a.patchset_number ≡ b.patchset_number
unfolding is_reviewable is_open
settled a b c s t y y' = ground arith

module _ (digest : JobIdentity → Name → Name) where
  Step-IsValid : (db db' : Db) → Step digest db db' → IsValid db → IsValid db'
  Step-IsValid _ _ (enqueued now event version db) v = enqueue-IsValid now event version db v
  Step-IsValid _ _ (claimed now worker lease db) v = claim_next-IsValid now worker lease db v
  Step-IsValid _ _ (renewed now i worker lease db) v = heartbeat-IsValid now i worker lease db v
  Step-IsValid _ _ (guarded now i worker lease db) v =
      refresh_publish_guard-IsValid now i worker lease db v
  Step-IsValid _ _ (advanced now i to worker release db db' r h) v =
      transition-IsValid now i to worker release db db' r h v
  Step-IsValid _ _ (retried now i resume at error worker db db' r fits h) v =
      schedule_retry-IsValid now i resume at error worker db db' r fits h v
  Step-IsValid _ _ (given_up now i error worker db db' r h) v =
      mark_failed_permanent-IsValid now i error worker db db' r h v
  Step-IsValid _ _ (overtaken now i worker by db db' r h) v =
      mark_superseded-IsValid now i worker by db db' r h v
  Step-IsValid _ _ (promoted now i worker db db' r fits h) v =
      save_review_result_and_mark_ready-IsValid now i worker db db' r fits h v
  Step-IsValid _ _ (requeued now i db db' r h) v = requeue_failed-IsValid now i db db' r h v
  Step-IsValid _ _ (attempt_started now i stage worker db db' a h) v =
      start_attempt-IsValid now i stage worker db db' a h v
  Step-IsValid _ _ (attempt_finished now a success retryable error db db' u h) v =
      finish_attempt-IsValid now a success retryable error db db' u h v
  Step-IsValid _ _ (publication_begun now i worker payload db db' p h) v =
      begin_publication-IsValid digest now i worker payload db db' p h v
  Step-IsValid _ _ (publication_marked p change db db' u h) v =
      on_publication-IsValid p change db db' u h v
  Step-IsValid _ _ (finalized now p i worker response defer db db' r h) v =
      complete_publication_and_mark_done-IsValid now p i worker response defer db db' r h v
  Step-IsValid _ _ (vote_ensured now i worker decision payload db db' w h) v =
      ensure-IsValid now i worker decision payload db db' w h v
  Step-IsValid _ _ (vote_dispatched now i worker account db db' w h) v =
      dispatch-IsValid now i worker account db db' w h v
  Step-IsValid _ _ (vote_retried now i worker error db db' w h) v =
      retry-IsValid now i worker error db db' w h v
  Step-IsValid _ _ (vote_finished now i worker status response error account db db' u h) v =
      finish-IsValid now i worker status response error account db db' u h v

  -- Whatever transactions commit, in whatever order, a valid table stays valid: each row is sound,
  -- ids and job keys are unique, ids are below the next one, and no newer Patch Set is open beside
  -- an older reviewable one.
  pub Run-IsValid : (db db' : Db) → Run digest db db' → IsValid db → IsValid db'
  Run-IsValid _ _ (stop db) v = v
  Run-IsValid _ _ (next db db1 db2 s r) v = Run-IsValid db1 db2 r (Step-IsValid db db1 s v)

  -- Two reviewable jobs of one Change, in a table reached from the empty one by any run of
  -- transactions, are of the same Patch Set: a newer one has superseded the older.
  pub reviewable_patchset :
      (projects : List ManagedProject) (db : Db) (a b : Job)
      → Run digest (record empty { projects = projects }) db
      → Elem a db.jobs
      → Elem b db.jobs
      → same_change a b ≡ true
      → is_reviewable a ≡ true
      → is_reviewable b ≡ true
      → a.patchset_number ≡ b.patchset_number
  reviewable_patchset projects db a b r m n c s t =
      let v = Run-IsValid (record empty { projects = projects }) db r (empty-IsValid projects) in
      let yields : Yields a b =
        All-Elem (Yields a) db.jobs (All-Elem (λ x. All (Yields x) db.jobs) db.jobs v.ordered m)
          n in
      let yields' : Yields b a =
        All-Elem (Yields b) db.jobs (All-Elem (λ x. All (Yields x) db.jobs) db.jobs v.ordered n)
          m in
      settled a b c s t yields yields'
