-- ===== src/Jobs/Votes/Kept.antt =====
-- src/pe_review_agent/jobs/votes.py: each transaction on a vote keeps the table of jobs valid.
use pe_review_agent.Domain.{Name, publishing, state_eq}
use pe_review_agent.Jobs.Rows.{
  Db, Job, ReviewVote, StoreError, VoteStatus, comments_not_durable, not_a_terminal_status,
  not_publishing,
}
use pe_review_agent.Jobs.Store.{find_job, put_job, require_live_lease}
use pe_review_agent.Jobs.Store.Lifecycle.{publication_of}
use pe_review_agent.Jobs.Store.Publications.{finalize_row}
use pe_review_agent.Jobs.Store.Soundness.{IsSound, finalize_row-IsSound}
use pe_review_agent.Jobs.Store.Tame.{finalize_row-Tames}
use pe_review_agent.Jobs.Store.Validity.{IsValid, IsValid-of_same_jobs, put_job-IsValid}
use pe_review_agent.Jobs.Votes.{
  VoteDecision, comments_durable, dispatch, dispatch_row, ensure, find_vote, finish, finish_row,
  guard_vote, is_terminal_vote, put_vote, retry, retry_row,
}
use pe_review_agent.Prelude.{
  All-find?, Bool, Elem-find?, Option, String, ap, arith, false, none, refl, some, subst, sym, true,
  ℕ, ◌==◌, ◌≡◌, ◌≤◌,
}
use pe_review_agent.Prelude.Result.{>>=-eq-ok, Result, guard, ok, ◌>>=◌}

-- The row that `_guard` lets through is the one selected; it is PUBLISHING.
pub guard_vote-ok :
    (now : ℕ) (worker : Name) (o : Option Job) (job : Job)
    → guard_vote now worker o ≡ ok job
    → (o ≡ some job) × (job.state ≡ publishing) × (require_live_lease now job worker ≡ ok tt)
unfolding guard_vote
guard_vote-ok now worker none job h = cc
guard_vote-ok now worker (some j) job h =
    let (u, e, f) = >>=-eq-ok (require_live_lease now j worker) _ h in
    let (s, g) = published j job f in (ap some s, g, rw (sym s) e)
  where
    published :
        (j job : Job)
        → (guard (state_eq j.state publishing) not_publishing >>= λ _. ok j) ≡ ok job
        → (j ≡ job) × (job.state ≡ publishing)
    published j job f = ground arith

-- A transaction that leaves the jobs and the ids alone.
abbrev SameJobs : Db → Db → Type 0
SameJobs db db' = (db'.jobs ≡ db.jobs) × (db'.next_id ≡ db.next_id)

SameJobs-IsValid : (db db' : Db) → SameJobs db db' → IsValid db → IsValid db'
SameJobs-IsValid db db' (e, n) v =
    let m : db.next_id ≤ db'.next_id = omega arith in IsValid-of_same_jobs db db' e m v

pub ensure-IsValid :
    (now i : ℕ) (worker : Name) (decision : VoteDecision) (payload : Name) (db db' : Db)
    (v : ReviewVote)
    → ensure now i worker decision payload db ≡ ok (db', v)
    → IsValid db
    → IsValid db'
unfolding ensure
ensure-IsValid now i worker decision payload db db' v h valid =
    let (job, e, f) = >>=-eq-ok (guard_vote now worker (find_job i db)) _ h in
    SameJobs-IsValid db db' (ground arith) valid

-- A vote written back.
written :
    (m : Result StoreError ReviewVote) (db db' : Db) (v : ReviewVote)
    → ◌>>=◌ {B = Db × ReviewVote} m (λ w. ok (put_vote w db, w)) ≡ ok (db', v)
    → (db'.jobs ≡ db.jobs) × (db'.next_id ≡ db.next_id)
written m db db' v h = let (w, e, f) = >>=-eq-ok m _ h in (cc, cc)

pub dispatch-IsValid :
    (now i : ℕ) (worker : Name) (account : ℕ) (db db' : Db) (v : ReviewVote)
    → dispatch now i worker account db ≡ ok (db', v)
    → IsValid db
    → IsValid db'
unfolding dispatch
dispatch-IsValid now i worker account db db' v h valid =
    let (job, e, f) = >>=-eq-ok (guard_vote now worker (find_job i db)) _ h in
    SameJobs-IsValid db db' (written (dispatch_row account (find_vote i db)) db db' v f) valid

pub retry-IsValid :
    (now i : ℕ) (worker : Name) (error : String) (db db' : Db) (v : ReviewVote)
    → retry now i worker error db ≡ ok (db', v)
    → IsValid db
    → IsValid db'
unfolding retry
retry-IsValid now i worker error db db' v h valid =
    let (job, e, f) = >>=-eq-ok (guard_vote now worker (find_job i db)) _ h in
    SameJobs-IsValid db db' (written (retry_row error (find_vote i db)) db db' v f) valid

guard-ok : (b : Bool) (e : StoreError) (u : Unit {0}) → guard b e ≡ ok u → b ≡ true
guard-ok b e u h = ground arith

-- What `finish` has done when it commits.
pub finish-ok :
    (now i : ℕ) (worker : Name) (status : VoteStatus) (response : Option Name)
    (error : Option String) (account : Option ℕ) (db db' : Db) (u : Unit {0})
    → finish now i worker status response error account db ≡ ok (db', u)
    → (job : Job) × (v : ReviewVote) × (guard_vote now worker (find_job i db) ≡ ok job)
      × (comments_durable (publication_of i db) ≡ true)
      × (finish_row status response error account (find_vote i db) ≡ ok v)
      × (db' ≡ put_job (finalize_row false job) (put_vote v db))
unfolding finish
finish-ok now i worker status response error account db db' u h =
    let (u1, e1, f1) = >>=-eq-ok (guard (is_terminal_vote status) not_a_terminal_status) _ h in
    let (job, e2, f2) = >>=-eq-ok (guard_vote now worker (find_job i db)) _ f1 in
    let (u3, e3, f3) =
      >>=-eq-ok (guard (comments_durable (publication_of i db)) comments_not_durable) _ f2 in
    let (v, e4, f4) = >>=-eq-ok (finish_row status response error account (find_vote i db)) _ f3 in
    (
      job,
      v,
      e2,
      guard-ok (comments_durable (publication_of i db)) comments_not_durable u3 e3,
      e4,
      cc,
    )

pub finish-terminal :
    (now i : ℕ) (worker : Name) (status : VoteStatus) (response : Option Name)
    (error : Option String) (account : Option ℕ) (db db' : Db) (u : Unit {0})
    → finish now i worker status response error account db ≡ ok (db', u)
    → is_terminal_vote status ≡ true
unfolding finish
finish-terminal now i worker status response error account db db' u h =
    let (u1, e1, f1) = >>=-eq-ok (guard (is_terminal_vote status) not_a_terminal_status) _ h in
    guard-ok (is_terminal_vote status) not_a_terminal_status u1 e1

pub finish-IsValid :
    (now i : ℕ) (worker : Name) (status : VoteStatus) (response : Option Name)
    (error : Option String) (account : Option ℕ) (db db' : Db) (u : Unit {0})
    → finish now i worker status response error account db ≡ ok (db', u)
    → IsValid db
    → IsValid db'
unfolding find_job
finish-IsValid now i worker status response error account db db' u h valid =
    let (job, v, e, c, f, s) = finish-ok now i worker status response error account db db' u h in
    let (found, p, l) = guard_vote-ok now worker (find_job i db) job e in
    let voted = SameJobs-IsValid db (put_vote v db) (refl, refl) valid in
    subst IsValid (sym s) (
      put_job-IsValid (put_vote v db) job (finalize_row false job) voted
        (Elem-find? (λ j. j.id == i) db.jobs found)
        (finalize_row-IsSound false job
          (All-find? IsSound (λ j. j.id == i) db.jobs valid.sound found))
        (finalize_row-Tames false job (λ t. absurd (cc t))))
