-- ===== src/Jobs/Store/Durable.antt =====
-- src/pe_review_agent/jobs/store.py: the intent to publish, and its outcome, survive a replay.
use pe_review_agent.Domain.{Name, done, state_eq}
use pe_review_agent.Jobs.Rows.{Db, Job, Publication}
use pe_review_agent.Jobs.Store.{find_job, put_job}
use pe_review_agent.Jobs.Store.Budget.{find_job-put_job, found_id}
use pe_review_agent.Jobs.Store.Lifecycle.{is_posted}
use pe_review_agent.Jobs.Store.Publications.{
  complete_publication_and_mark_done, finalize_row, finalize_rows, may_finalize, post_publication,
}
use pe_review_agent.Prelude.{
  Bool, Bool-cases, List, Option, ap, arith, false, find?, find?-replace_first, find?_passes, inl,
  inr, none, refl, replace_first, some, subst, subst₂, sym, true, ℕ, ◌&&◌, ◌==◌, ◌∙◌, ◌≡◌, ◌⊎◌,
}
use pe_review_agent.Prelude.Result.{>>=-eq-ok, ok}

finalized_row : (defer : Bool) (job : Job) → (finalize_row defer job).id ≡ job.id
unfolding finalize_row
finalized_row defer job = ground arith

of_job :
    (now i : ℕ) (worker : Name) (row : Publication) (job : Job) (u : Unit {0})
    → may_finalize now i worker false row job ≡ ok u
    → row.job_id ≡ i
unfolding may_finalize
of_job now i worker row job u e = ground arith

-- What `complete_publication_and_mark_done` leaves when it marks the job DONE, and what it found.
finalize_rows_done :
    (now p i : ℕ) (worker : Name) (response : Option Name) (job : Job) (row : Publication)
    (db db' : Db) (r : Job)
    → finalize_rows now p i worker response false (some job) (some row) db ≡ ok (db', r)
    → ((db' ≡ db)
        × (r ≡ job)
        × (row.job_id ≡ i)
        × (job.state ≡ done)
        × (is_posted row.status ≡ true))
      ⊎ ((row.job_id ≡ i)
          × (r ≡ finalize_row false job)
          × (db'.jobs ≡ (put_job r db).jobs)
          × (db'.publications
              ≡ replace_first (λ q. q.id == p) (post_publication now response row) db.publications))
unfolding finalize_rows put_job
finalize_rows_done now p i worker response job row db db' r h =
    elim (Bool-cases (row.job_id == i && (state_eq job.state done && is_posted row.status))) [
      | inl t ↦
          let e = rw t at h in
          let (a, b, c) : (row.job_id ≡ i) × (job.state ≡ done) × (is_posted row.status ≡ true) =
            ground arith in
          inl (cc, cc, a, b, c)
      | inr f ↦
          let (u, e, g) = >>=-eq-ok (may_finalize now i worker false row job) _ (rw f at h) in
          inr (of_job now i worker row job u e, cc, cc, cc)
    ]

-- A job that `finalize_row` marked DONE is DONE, and a publication that was posted keeps its job.
marked :
    (now i : ℕ) (response : Option Name) (job : Job) (row : Publication)
    → row.job_id ≡ i
    → ((finalize_row false job).state ≡ done)
      × ((post_publication now response row).job_id ≡ i)
      × ((post_publication now response row).id ≡ row.id)
      × (is_posted (post_publication now response row).status ≡ true)
unfolding finalize_row post_publication
marked now i response job row e = ground arith

-- On a job that is DONE and its posted publication, the transaction changes nothing.
replayed :
    (now p i : ℕ) (worker : Name) (response : Option Name) (job : Job) (row : Publication) (db : Db)
    → row.job_id ≡ i
    → job.state ≡ done
    → is_posted row.status ≡ true
    → finalize_rows now p i worker response false (some job) (some row) db ≡ ok (db, job)
unfolding finalize_rows
replayed now p i worker response job row db e s t =
    let c : (row.job_id == i && (state_eq job.state done && is_posted row.status)) ≡ true =
      ground arith in
    rw c refl

module _ (now now' p i : ℕ) (worker worker' : Name) (response response' : Option Name) where
  replay_rows :
      (o : Option Job) (q : Option Publication) (db db' : Db) (r : Job)
      → find_job i db ≡ o
      → find? (λ k. k.id == p) db.publications ≡ q
      → finalize_rows now p i worker response false o q db ≡ ok (db', r)
      → complete_publication_and_mark_done now' p i worker' response' false db' ≡ ok (db', r)
  unfolding complete_publication_and_mark_done finalize_rows find_job
  replay_rows none q db db' r f g h = cc
  replay_rows (some job) none db db' r f g h = cc
  replay_rows (some job) (some row) db db' r f g h =
      elim (finalize_rows_done now p i worker response job row db db' r h) [
        | inl (e, s, a, b, c) ↦
            subst
              (λ x.
                complete_publication_and_mark_done now' p i worker' response' false x ≡ ok (x, r))
              (sym e)
              (subst
                (λ x.
                  complete_publication_and_mark_done now' p i worker' response' false db
                  ≡ ok (db, x))
                (sym s)
                (subst₂
                  (λ x y. finalize_rows now' p i worker' response' false x y db ≡ ok (db, job))
                  (sym f) (sym g) (replayed now' p i worker' response' job row db a b c)))
        | inr (a, s, jobs, pubs) ↦
            let (d, k, n, t) = marked now i response job row a in
            let is_p : (row.id == p) ≡ true = find?_passes (λ k. k.id == p) db.publications g in
            let found : find_job i db' ≡ some r =
              subst (λ (js : List Job). find? (λ j. j.id == i) js ≡ some r) (sym jobs)
                (find_job-put_job i db job r f
                  (ap (λ (x : Job). x.id) s ∙ finalized_row false job ∙ found_id i db job f)) in
            let posted : find? (λ k. k.id == p) db'.publications
                ≡ some (post_publication now response row) =
              subst
                (λ (ps : List Publication).
                  find? (λ k. k.id == p) ps ≡ some (post_publication now response row))
                (sym pubs)
                (find?-replace_first (λ k. k.id == p) (post_publication now response row)
                  db.publications g (rw n is_p)) in
            subst₂ (λ x y. finalize_rows now' p i worker' response' false x y db' ≡ ok (db', r))
              (sym found) (sym posted)
              (replayed now' p i worker' response' r (post_publication now response row) db' k
                (ap (λ (x : Job). x.state) s ∙ d) t)
      ]

  -- Once a publication is recorded as posted and its job DONE, the same call by any worker, at any
  -- time and with any response, commits again, returns the same job and changes nothing.
  pub complete_publication_and_mark_done_replay :
      (db db' : Db) (r : Job)
      → complete_publication_and_mark_done now p i worker response false db ≡ ok (db', r)
      → complete_publication_and_mark_done now' p i worker' response' false db' ≡ ok (db', r)
  unfolding complete_publication_and_mark_done
  complete_publication_and_mark_done_replay db db' r h =
      replay_rows (find_job i db) (find? (λ q. q.id == p) db.publications) db db' r refl refl h
