-- ===== src/Jobs/Store/Publications.antt =====
-- src/pe_review_agent/jobs/store.py: the durable intent to publish a review, and its outcome. The
-- digest of a publication (SHA-256 over the job's identity and the payload) is a parameter.
use pe_review_agent.Domain.{Name, done, publishing, state_eq, superseded}
use pe_review_agent.Jobs.Rows.{
  Db, Job, Publication, PublicationStatus, StoreError, Tx, belongs_to_other_job, cannot_finalize,
  key_error, lease_owned_elsewhere, not_publishing, payload_changed,
}
use pe_review_agent.Jobs.Store.{find_job, is_newer, put_job, require_live_lease}
use pe_review_agent.Jobs.Store.Lifecycle.{is_posted, publication_of}
use pe_review_agent.Prelude.{
  Bool, Option, String, any, count_where, false, find?, if◌then◌else◌, is_none, is_some_eq, none,
  not, replace_first, some, suc, update_where, ℕ, ◌&&◌, ◌==◌, ◌||◌, ◌∷◌,
}
use pe_review_agent.Prelude.Result.{Result, err, guard, ok, ◌>>◌}

-- What identifies a job, as `publication_fingerprint` reads it.
pub record JobIdentity : Type 0 where
  pub project : Name
  pub change_number : ℕ
  pub revision_sha : Name
  pub review_policy_version : Name

abbrev pub identity_of : Job → JobIdentity
identity_of job = record {
  project = job.project;
  change_number = job.change_number;
  revision_sha = job.revision_sha;
  review_policy_version = job.review_policy_version;
}

module _ (digest : JobIdentity → Name → Name) where
  -- `publication_fingerprint`
  unfoldable pub publication_fingerprint : Job → Name → Name
  publication_fingerprint job payload = digest (identity_of job) payload

  -- The publication of the job, inserted, or as it was begun.
  unfoldable pub begin_with : ℕ → Name → Job → Option Publication → Tx Publication
  unfolding publication_fingerprint
  begin_with i payload job none db =
      let p : Publication = record {
        id = db.next_id;
        job_id = i;
        publication_fingerprint = publication_fingerprint job payload;
        status = PublicationStatus.pending;
        request_payload = payload;
        gerrit_response = none;
        last_error = none;
        posted_at = none;
      } in
      ok (record db { publications = p ∷ db.publications; next_id = suc db.next_id }, p)
  begin_with i payload job (some p) db =
      if p.publication_fingerprint == publication_fingerprint job payload
      then ok (db, p)
      else err payload_changed

  -- What `begin_publication` does with the job that it locked.
  unfoldable pub begin_row : ℕ → ℕ → Name → Name → Option Job → Tx Publication
  unfolding require_live_lease begin_with
  begin_row now i worker payload none db = err key_error
  begin_row now i worker payload (some job) db = do
    require_live_lease now job worker
    guard (state_eq job.state publishing) not_publishing
    begin_with i payload job (publication_of i db) db

  -- `JobStore.begin_publication`
  unfoldable pub begin_publication : ℕ → ℕ → Name → Name → Tx Publication
  unfolding find_job begin_row
  begin_publication now i worker payload db = begin_row now i worker payload (find_job i db) db

-- UPDATE of one publication by its id; KeyError if it is missing.
unfoldable pub on_publication : ℕ → (Publication → Publication) → Tx (Unit {0})
on_publication p change db =
    if count_where (λ q. q.id == p) db.publications == 1
    then ok (record db { publications = update_where (λ q. q.id == p) change db.publications }, tt)
    else err key_error

-- `JobStore.mark_publication_ambiguous`
unfoldable pub mark_publication_ambiguous : ℕ → String → Tx (Unit {0})
unfolding on_publication
mark_publication_ambiguous p error =
    on_publication p
      (λ q. record q { status = PublicationStatus.ambiguous; last_error = some error })

-- `JobStore.mark_publication_failed`
unfoldable pub mark_publication_failed : ℕ → String → Tx (Unit {0})
unfolding on_publication
mark_publication_failed p error =
    on_publication p (λ q. record q { status = PublicationStatus.failed; last_error = some error })

-- `JobStore.complete_publication`
unfoldable pub complete_publication : ℕ → ℕ → Option Name → Tx (Unit {0})
unfolding on_publication
complete_publication now p response = on_publication p (λ q. record q {
  status = PublicationStatus.posted;
  gerrit_response = response;
  posted_at = some now;
  last_error = none;
})

-- The publication as `complete_publication_and_mark_done` leaves it: the first response stays.
unfoldable pub post_publication : ℕ → Option Name → Publication → Publication
post_publication now response p = elim p.posted_at [
  | none ↦ record p {
    status = PublicationStatus.posted;
    gerrit_response = response;
    posted_at = some now;
    last_error = none;
  }
  | some t ↦ record p { status = PublicationStatus.posted; last_error = none }
]

-- The tests that deferring DONE adds.
unfoldable pub may_defer : ℕ → Name → Bool → Job → Result StoreError (Unit {0})
unfolding require_live_lease
may_defer now worker defer_done job =
    if defer_done
    then (do
      require_live_lease now job worker
      guard (state_eq job.state publishing) not_publishing)
    else ok tt

-- The tests of `complete_publication_and_mark_done` on its two rows.
unfoldable pub may_finalize : ℕ → ℕ → Name → Bool → Publication → Job → Result StoreError (Unit {0})
unfolding may_defer
may_finalize now i worker defer_done p job = do
  guard (p.job_id == i) belongs_to_other_job
  guard (state_eq job.state publishing || state_eq job.state superseded) (cannot_finalize job.state)
  guard
      (not (state_eq job.state publishing)
        || is_none job.lease_owner
        || is_some_eq job.lease_owner worker)
      lease_owned_elsewhere
  may_defer now worker defer_done job

-- The job as it leaves it.
unfoldable pub finalize_row : Bool → Job → Job
finalize_row defer_done job =
    let cleared = record job { retry_state = none; last_error_class = none; last_error = none } in
    if defer_done
    then record cleared { state = publishing }
    else record cleared { state = done; lease_owner = none; lease_expires_at = none }

-- What `complete_publication_and_mark_done` does with the two rows that it locked.
unfoldable pub finalize_rows :
    ℕ → ℕ → ℕ → Name → Option Name → Bool → Option Job → Option Publication → Tx Job
unfolding put_job may_finalize finalize_row post_publication
finalize_rows now p i worker response defer_done none o db = err key_error
finalize_rows now p i worker response defer_done (some job) none db = err key_error
finalize_rows now p i worker response defer_done (some job) (some row) db =
    if row.job_id == i && (state_eq job.state done && is_posted row.status)
    then ok (db, job)
    else (do
      may_finalize now i worker defer_done row job
      let job' = finalize_row defer_done job
      ok (
        record (put_job job' db) {
          publications =
              replace_first (λ q. q.id == p) (post_publication now response row) db.publications;
        },
        job',
      ))

-- `JobStore.complete_publication_and_mark_done`
unfoldable pub complete_publication_and_mark_done : ℕ → ℕ → ℕ → Name → Option Name → Bool → Tx Job
unfolding find_job finalize_rows
complete_publication_and_mark_done now p i worker response defer_done db =
    finalize_rows now p i worker response defer_done (find_job i db)
      (find? (λ q. q.id == p) db.publications) db

-- `JobStore.is_latest_known_patchset`
unfoldable pub is_latest_known_patchset : ℕ → Db → Bool
unfolding find_job
is_latest_known_patchset i db = elim (find_job i db) [
  | none ↦ false
  | some job ↦ not (state_eq job.state superseded) && not (any (is_newer job) db.jobs)
]
