-- ===== src/Jobs/Store/Recorded.antt =====
-- src/pe_review_agent/jobs/store.py: the transactions on attempts and publications keep the table of
-- jobs valid.
use pe_review_agent.Domain.{AttemptStage, Name, done, publishing, state_eq}
use pe_review_agent.Jobs.Rows.{Db, ErrorValue, Job, Publication}
use pe_review_agent.Jobs.Store.{find_job, put_job}
use pe_review_agent.Jobs.Store.Attempts.{finish_attempt, may_start, start_attempt}
use pe_review_agent.Jobs.Store.Lifecycle.{is_posted}
use pe_review_agent.Jobs.Store.Order.{
  Related-update_where, Tamed, Tames, Tames-refl, is_open, is_reviewable,
}
use pe_review_agent.Jobs.Store.Publications.{
  JobIdentity, begin_publication, complete_publication_and_mark_done, finalize_row, finalize_rows,
  may_finalize, on_publication,
}
use pe_review_agent.Jobs.Store.Soundness.{IsSound, finalize_row-IsSound}
use pe_review_agent.Jobs.Store.Tame.{finalize_row-Tames}
use pe_review_agent.Jobs.Store.Validity.{
  IsValid, IsValid-Tamed, IsValid-of_same_jobs, put_job-IsValid,
}
use pe_review_agent.Prelude.{
  All, All-find?, All-update_where, Bool, Bool-cases, Elem-find?, Option, arith, find?, inl, inr,
  none, refl, some, subst, sym, true, update_where, ℕ, ◌&&◌, ◌+◌, ◌==◌, ◌≡◌, ◌≤◌, ◌⊎◌,
}
use pe_review_agent.Prelude.Result.{>>=-eq-ok, ok}

-- Counting one more attempt.
counted-IsSound :
    (job : Job) → IsSound job → IsSound (record job { attempt_count = job.attempt_count + 1 })
counted-IsSound job h = ground arith

counted-Tames : (job : Job) → Tames job (record job { attempt_count = job.attempt_count + 1 })
unfolding is_reviewable is_open
counted-Tames job = ground arith

pub start_attempt-IsValid :
    (now i : ℕ) (stage : AttemptStage) (worker : Name) (db db' : Db) (a : ℕ)
    → start_attempt now i stage worker db ≡ ok (db', a)
    → IsValid db
    → IsValid db'
unfolding start_attempt
start_attempt-IsValid now i stage worker db db' a h v =
    let count = λ (j : Job). record j { attempt_count = j.attempt_count + 1 } in
    let (e, n) : (db'.jobs ≡ update_where (may_start now worker i) count db.jobs)
        × (db.next_id ≤ db'.next_id) =
      ground arith in
    IsValid-Tamed db db'
      (subst (Tamed db.jobs) (sym e) (
        Related-update_where Tames Tames-refl (may_start now worker i) count db.jobs
          (λ x t. counted-Tames x)))
      n
      (subst (All IsSound) (sym e) (
        All-update_where IsSound (may_start now worker i) count db.jobs (λ x t. counted-IsSound x)
          v.sound))
      v

pub finish_attempt-IsValid :
    (now a : ℕ) (success : Bool) (retryable : Option Bool) (error : Option ErrorValue) (db db' : Db)
    (u : Unit {0})
    → finish_attempt now a success retryable error db ≡ ok (db', u)
    → IsValid db
    → IsValid db'
unfolding finish_attempt
finish_attempt-IsValid now a success retryable error db db' u h v =
    let (e, n) : (db'.jobs ≡ db.jobs) × (db.next_id ≤ db'.next_id) = ground arith in
    IsValid-of_same_jobs db db' e n v

pub on_publication-IsValid :
    (p : ℕ) (change : Publication → Publication) (db db' : Db) (u : Unit {0})
    → on_publication p change db ≡ ok (db', u)
    → IsValid db
    → IsValid db'
unfolding on_publication
on_publication-IsValid p change db db' u h v =
    let (e, n) : (db'.jobs ≡ db.jobs) × (db.next_id ≤ db'.next_id) = ground arith in
    IsValid-of_same_jobs db db' e n v

may_finalize_defers :
    (now i : ℕ) (worker : Name) (defer : Bool) (row : Publication) (job : Job) (u : Unit {0})
    → may_finalize now i worker defer row job ≡ ok u
    → defer ≡ true
    → job.state ≡ publishing
unfolding may_finalize
may_finalize_defers now i worker defer row job u h t = ground arith

pub begin_publication-IsValid :
    (digest : JobIdentity → Name → Name) (now i : ℕ) (worker payload : Name) (db db' : Db)
    (p : Publication)
    → begin_publication digest now i worker payload db ≡ ok (db', p)
    → IsValid db
    → IsValid db'
unfolding begin_publication
begin_publication-IsValid digest now i worker payload db db' p h v =
    let (e, n) : (db'.jobs ≡ db.jobs) × (db.next_id ≤ db'.next_id) = ground arith in
    IsValid-of_same_jobs db db' e n v

-- The job that is finalized: it was found, and changed as `finalize_row` says, or not at all.
finalize_rows-ok :
    (now p i : ℕ) (worker : Name) (response : Option Name) (defer : Bool) (job : Job)
    (row : Publication) (db db' : Db) (r : Job)
    → finalize_rows now p i worker response defer (some job) (some row) db ≡ ok (db', r)
    → (db' ≡ db)
      ⊎ ((may_finalize now i worker defer row job ≡ ok tt)
          × (db'.jobs ≡ (put_job (finalize_row defer job) db).jobs)
          × (db'.next_id ≡ db.next_id))
unfolding finalize_rows put_job
finalize_rows-ok now p i worker response defer job row db db' r h =
    elim (Bool-cases (row.job_id == i && (state_eq job.state done && is_posted row.status))) [
      | inl t ↦ inl (cc (rw t at h))
      | inr f ↦
          let (u, e, g) = >>=-eq-ok (may_finalize now i worker defer row job) _ (rw f at h) in
          inr (e, cc, cc)
    ]

below :
    (job : Job) (db db' : Db) → db'.next_id ≡ db.next_id → (put_job job db).next_id ≤ db'.next_id
unfolding put_job
below job db db' n = omega arith

finalize_rows-IsValid :
    (now p i : ℕ) (worker : Name) (response : Option Name) (defer : Bool) (o : Option Job)
    (row : Option Publication) (db db' : Db) (r : Job)
    → find_job i db ≡ o
    → finalize_rows now p i worker response defer o row db ≡ ok (db', r)
    → IsValid db
    → IsValid db'
unfolding find_job finalize_rows
finalize_rows-IsValid now p i worker response defer none row db db' r e h v = cc
finalize_rows-IsValid now p i worker response defer (some job) none db db' r e h v = cc
finalize_rows-IsValid now p i worker response defer (some job) (some row) db db' r e h v =
    elim (finalize_rows-ok now p i worker response defer job row db db' r h) [
      | inl s ↦ subst IsValid (sym s) v
      | inr (t, s, n) ↦
          IsValid-of_same_jobs (put_job (finalize_row defer job) db) db' s
            (below (finalize_row defer job) db db' n)
            (put_job-IsValid db job (finalize_row defer job) v
              (Elem-find? (λ j. j.id == i) db.jobs e)
              (finalize_row-IsSound defer job
                (All-find? IsSound (λ j. j.id == i) db.jobs v.sound e))
              (finalize_row-Tames defer job (may_finalize_defers now i worker defer row job tt t)))
    ]

pub complete_publication_and_mark_done-IsValid :
    (now p i : ℕ) (worker : Name) (response : Option Name) (defer : Bool) (db db' : Db) (r : Job)
    → complete_publication_and_mark_done now p i worker response defer db ≡ ok (db', r)
    → IsValid db
    → IsValid db'
unfolding complete_publication_and_mark_done
complete_publication_and_mark_done-IsValid now p i worker response defer db db' r h v =
    finalize_rows-IsValid now p i worker response defer (find_job i db)
      (find? (λ q. q.id == p) db.publications) db db' r refl h v
