-- ===== src/Jobs/Store/Budget.antt =====
-- src/pe_review_agent/jobs/store.py: an operator's requeue starts a fresh retry budget.
use pe_review_agent.Domain.{
  AttemptStage, JobState, done, failed_permanent, publishing, ready_to_publish, received,
}
use pe_review_agent.Jobs.Rows.{Attempt, Db, Job, Publication, PublicationStatus, StoreError}
use pe_review_agent.Jobs.Store.{find_job, is_newer, on_job, on_job-ok, put_job}
use pe_review_agent.Jobs.Store.Attempts.{consumed_of, count_consumed_retry_attempts, is_consumed}
use pe_review_agent.Jobs.Store.Lifecycle.{
  has_result, is_posted, publication_of, requeue_failed, requeue_row, resume_phase,
}
use pe_review_agent.Prelude.{
  ==_refl, All, Bool, Bool-cases, List, Option, [], any, ap, arith, count_where, false, find?,
  find?-replace_first, find?_passes, if◌then◌else◌, inl, inr, none, refl, some, some_inj, subst,
  sym, true, ℕ, ◌==◌, ◌∙◌, ◌∷◌, ◌≡◌, ◌≢◌, ◌≤◌, ◌⊎◌,
}
use pe_review_agent.Prelude.Result.{>>=-eq-ok, Result, ok}

requeued_row :
    (now : ℕ) (db : Db) (a b : Job)
    → requeue_row now db a ≡ ok b
    → (b.id ≡ a.id)
      × (b.retry_epoch_start_attempt ≡ a.attempt_count)
      × (b.state ≡ resume_phase (publication_of a.id db) (has_result a.id db))
      × (b.next_attempt_at ≡ now)
      × (a.state ≡ failed_permanent)
      × (any (is_newer a) db.jobs ≡ false)
unfolding requeue_row
requeued_row now db a b h = ground arith

skipped_attempt :
    (job : Job) (stage : AttemptStage) (a : Attempt)
    → ((a.job_id == job.id) ≡ true → a.attempt_number ≤ job.retry_epoch_start_attempt)
    → is_consumed job stage a ≡ false
unfolding is_consumed
skipped_attempt job stage a h = elim (Bool-cases (a.job_id == job.id)) [
  | inl t ↦ let k = h t in ground arith
  | inr f ↦ ground arith
]

-- No attempt with a number up to the start of the epoch is counted.
none_consumed :
    (job : Job) (stage : AttemptStage) (attempts : List Attempt)
    → All
        (λ a. (a.job_id == job.id) ≡ true → a.attempt_number ≤ job.retry_epoch_start_attempt)
        attempts
    → count_where (is_consumed job stage) attempts ≡ 0
unfolding count_where
none_consumed job stage [] h = refl
none_consumed job stage (a ∷ attempts) h =
    rw (skipped_attempt job stage a h.0) (none_consumed job stage attempts h.1)

pub found_id : (i : ℕ) (db : Db) (job : Job) → find_job i db ≡ some job → job.id ≡ i
unfolding find_job
found_id i db job f = let t = find?_passes (λ j. j.id == i) db.jobs f in ground arith

-- The row that was written back is found.
pub find_job-put_job :
    (i : ℕ) (db : Db) (before job : Job)
    → find_job i db ≡ some before
    → job.id ≡ i
    → find_job i (put_job job db) ≡ some job
unfolding find_job put_job
find_job-put_job i db before job f e =
    subst (λ (n : ℕ). find? (λ j. j.id == n) (put_job job db).jobs ≡ some job) e
      (find?-replace_first (λ j. j.id == job.id) job db.jobs
        (subst (λ (n : ℕ). find? (λ j. j.id == n) db.jobs ≡ some before) (sym e) f)
        (==_refl job.id))

same_rows :
    (ps : List Publication) (db1 db' : Db) (b job : Job)
    → ◌≡◌ {A = Result StoreError (Db × Job)}
        (ok (record db1 { publications = ps }, b))
        (ok (db', job))
    → (b ≡ job) × (db'.jobs ≡ db1.jobs) × (db'.attempts ≡ db1.attempts)
same_rows ps db1 db' b job f = (cc, cc, cc)

-- The rows of a requeue that commits.
requeue_failed-ok :
    (now i : ℕ) (db db' : Db) (job : Job)
    → requeue_failed now i db ≡ ok (db', job)
    → (before : Job) × (find_job i db ≡ some before)
      × (requeue_row now db before ≡ ok job)
      × (db'.jobs ≡ (put_job job db).jobs)
      × (db'.attempts ≡ db.attempts)
unfolding requeue_failed put_job
requeue_failed-ok now i db db' job h =
    let ((db1, b), e, f) = >>=-eq-ok (on_job i (requeue_row now db) db) _ h in
    let (a, found, changed, saved) = on_job-ok i (requeue_row now db) db db1 b e in
    let (same, jobs, attempts) = same_rows _ db1 db' b job f in
    (
      a,
      found,
      subst (λ x. requeue_row now db a ≡ ok x) same changed,
      jobs ∙ ap (λ (d : Db). d.jobs) saved ∙ ap (λ (x : Job). (put_job x db).jobs) same,
      attempts ∙ ap (λ (d : Db). d.attempts) saved,
    )

counts_none :
    (i : ℕ) (stage : AttemptStage) (db : Db) (job : Job)
    → find_job i db ≡ some job
    → All
        (λ a. (a.job_id == i) ≡ true → a.attempt_number ≤ job.retry_epoch_start_attempt)
        db.attempts
    → count_consumed_retry_attempts i stage db ≡ 0
unfolding count_consumed_retry_attempts consumed_of
counts_none i stage db job f h =
    ap (consumed_of stage db) f ∙ none_consumed job stage db.attempts (rw (found_id i db job f) h)

-- The phase in which a job resumes: DONE where its publication was posted, PUBLISHING where one was
-- begun, READY_TO_PUBLISH where its review was saved, and otherwise RECEIVED.
abbrev pub ResumesIn : ℕ → Db → JobState → Type 0
ResumesIn i db state =
    ((p : Publication) × (publication_of i db ≡ some p)
      × (p.status ≡ PublicationStatus.posted)
      × (state ≡ done))
    ⊎ (((p : Publication) × (publication_of i db ≡ some p)
          × (p.status ≢ PublicationStatus.posted)
          × (state ≡ publishing))
        ⊎ (((publication_of i db ≡ none) × (has_result i db ≡ true) × (state ≡ ready_to_publish))
            ⊎ ((publication_of i db ≡ none) × (has_result i db ≡ false) × (state ≡ received))))

posted_phase :
    (i : ℕ) (db : Db) (state : JobState) (p : Publication) (status : PublicationStatus)
    → p.status ≡ status
    → publication_of i db ≡ some p
    → state ≡ (if is_posted status then done else publishing)
    → ResumesIn i db state
posted_phase i db state p PublicationStatus.posted e f h = inl (p, f, e, h)
posted_phase i db state p PublicationStatus.pending e f h = inr (inl (p, f, λ k. cc, h))
posted_phase i db state p PublicationStatus.ambiguous e f h = inr (inl (p, f, λ k. cc, h))
posted_phase i db state p PublicationStatus.failed e f h = inr (inl (p, f, λ k. cc, h))

reviewed_phase :
    (i : ℕ) (db : Db) (state : JobState) (reviewed : Bool)
    → has_result i db ≡ reviewed
    → publication_of i db ≡ none
    → state ≡ (if reviewed then ready_to_publish else received)
    → ResumesIn i db state
reviewed_phase i db state true e f h = inr (inr (inl (f, e, h)))
reviewed_phase i db state false e f h = inr (inr (inr (f, e, h)))

resume_phase-ResumesIn :
    (i : ℕ) (db : Db) (state : JobState) (o : Option Publication)
    → publication_of i db ≡ o
    → state ≡ resume_phase o (has_result i db)
    → ResumesIn i db state
unfolding resume_phase
resume_phase-ResumesIn i db state none e h = reviewed_phase i db state (has_result i db) refl e h
resume_phase-ResumesIn i db state (some p) e h = posted_phase i db state p p.status refl e h

-- When an operator's requeue commits, the job was FAILED_PERMANENT and no newer Patch Set is known;
-- it is due at once, DONE where its publication was posted, PUBLISHING where one was begun,
-- READY_TO_PUBLISH where its review was saved, and otherwise RECEIVED; and, where no attempt of the
-- job is numbered above its count of attempts, no attempt of any stage counts against its retry
-- budget any more.
pub requeue_failed_budget :
    (now i : ℕ) (stage : AttemptStage) (db db' : Db) (before job : Job)
    → find_job i db ≡ some before
    → All (λ a. (a.job_id == i) ≡ true → a.attempt_number ≤ before.attempt_count) db.attempts
    → requeue_failed now i db ≡ ok (db', job)
    → (before.state ≡ failed_permanent)
      × (any (is_newer before) db.jobs ≡ false)
      × ResumesIn i db job.state
      × (job.next_attempt_at ≡ now)
      × (count_consumed_retry_attempts i stage db' ≡ 0)
unfolding find_job
requeue_failed_budget now i stage db db' before job found numbered h =
    let (a, found', changed, jobs, attempts) = requeue_failed-ok now i db db' job h in
    let same : a ≡ before = some_inj (sym found' ∙ found) in
    let (d, e, s, t, p, n) =
      requeued_row now db before job
        (subst (λ (x : Job). requeue_row now db x ≡ ok job) same changed) in
    let is_i = found_id i db before found in
    let again : find_job i db' ≡ some job =
      subst (λ (js : List Job). find? (λ j. j.id == i) js ≡ some job) (sym jobs)
        (find_job-put_job i db before job found (d ∙ is_i)) in
    (
      p,
      n,
      resume_phase-ResumesIn i db job.state (publication_of i db) refl (
          subst (λ (k : ℕ). job.state ≡ resume_phase (publication_of k db) (has_result k db)) is_i
            s),
      t,
      counts_none i stage db' job again (rw (attempts, e) numbered),
    )
