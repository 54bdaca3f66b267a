-- ===== src/Jobs/Store.antt =====
-- src/pe_review_agent/jobs/store.py: the helpers that its transactions share. Each transaction of
-- `JobStore` is a function of the database that returns a new one, or the exception that rolls it
-- back; the transactions stand in the modules below.
pub mod Leases
pub mod Lifecycle
pub mod Enqueue
pub mod Attempts
pub mod Publications
pub mod Watermarks
pub mod Soundness
pub mod Order
pub mod Tame
pub mod Keys
pub mod Validity
pub mod Arrival
pub mod Ordered
pub mod Enqueued
pub mod Claims
pub mod Kept
pub mod Requeued
pub mod Worked
pub mod Recorded
pub mod Fencing
pub mod Handed
pub mod Budget
pub mod Durable
pub mod Intent
pub mod Guarded
use pe_review_agent.Domain.{JobState, Name, publishing, retry_wait, state_eq}
use pe_review_agent.Jobs.Rows.{
  Db, Job, StoreError, Tx, bad_transition, key_error, lease_has_expired, not_leased,
}
use pe_review_agent.Jobs.StateMachine.{require_transition}
use pe_review_agent.Prelude.{
  Bool, Option, false, find?, if◌then◌else◌, is_some_eq, leb, ltb, none, refl, replace_first, some,
  ℕ, ◌&&◌, ◌==◌, ◌||◌, ◌≡◌,
}
use pe_review_agent.Prelude.Result.{>>=-eq-ok, Result, err, ok, ◌>>=◌}

-- `select(Job).where(Job.id == job_id)`
unfoldable pub find_job : ℕ → Db → Option Job
find_job i db = find? (λ j. j.id == i) db.jobs

-- The row locked by `with_for_update` and changed, written back.
unfoldable pub put_job : Job → Db → Db
put_job j db = record db { jobs = replace_first (λ k. k.id == j.id) j db.jobs }

-- The row that was selected: KeyError if there is none, or the changed row written back.
unfoldable pub commit_row : Option Job → (Job → Result StoreError Job) → Tx Job
unfolding put_job
commit_row none change db = err key_error
commit_row (some job) change db = change job >>= λ job'. ok (put_job job' db, job')

-- A transaction that reads one row, raises KeyError if it is missing, and changes that row only.
unfoldable pub on_job : ℕ → (Job → Result StoreError Job) → Tx Job
unfolding find_job commit_row
on_job i change db = commit_row (find_job i db) change db

-- A transaction on one row that commits has found the row and changed it.
commit_row-ok :
    (o : Option Job) (change : Job → Result StoreError Job) (db db' : Db) (r : Job)
    → commit_row o change db ≡ ok (db', r)
    → (job : Job) × (o ≡ some job) × (change job ≡ ok r) × (db' ≡ put_job r db)
unfolding commit_row
commit_row-ok none change db db' r h = cc
commit_row-ok (some job) change db db' r h =
    let (a, e, f) = >>=-eq-ok (change job) (λ job'. ok (put_job job' db, job')) h in
    (job, refl, cc, cc)

pub on_job-ok :
    (i : ℕ) (change : Job → Result StoreError Job) (db db' : Db) (r : Job)
    → on_job i change db ≡ ok (db', r)
    → (job : Job) × (find_job i db ≡ some job) × (change job ≡ ok r) × (db' ≡ put_job r db)
unfolding on_job
on_job-ok i change db db' r h = commit_row-ok (find_job i db) change db db' r h

-- `_require_live_lease`
unfoldable pub require_live_lease : ℕ → Job → Name → Result StoreError (Unit {0})
require_live_lease now job worker =
    if is_some_eq job.lease_owner worker
    then elim job.lease_expires_at [
      | none ↦ err lease_has_expired
      | some t ↦ if leb t now then err lease_has_expired else ok tt
    ]
    else err not_leased

-- `require_transition`, its exceptions among the store's.
unfoldable pub check_transition : JobState → JobState → Result StoreError (Unit {0})
unfolding require_transition
check_transition current target = elim (require_transition current target) [
  | ok u ↦ ok u
  | err e ↦ err (bad_transition e)
]

-- `_needs_publish_recovery`
unfoldable pub needs_publish_recovery : Job → Bool
needs_publish_recovery job =
    state_eq job.state publishing
    || (state_eq job.state retry_wait
        && elim job.retry_state [ none ↦ false | some s ↦ state_eq s publishing ])

-- `Job.project == … and Job.change_number == …`
abbrev pub same_change : Job → Job → Bool
same_change a b = a.project == b.project && a.change_number == b.change_number

-- A row of the same Change with a higher Patch Set.
abbrev pub is_newer : Job → Job → Bool
is_newer job other = same_change other job && ltb job.patchset_number other.patchset_number
