-- ===== src/Jobs/Store/Intent.antt =====
-- src/pe_review_agent/jobs/store.py: a job has one publication, whose payload does not change.
use pe_review_agent.Domain.{Name, publishing, state_eq}
use pe_review_agent.Jobs.Rows.{Db, Job, Publication, not_publishing}
use pe_review_agent.Jobs.Store.{find_job, require_live_lease}
use pe_review_agent.Jobs.Store.Lifecycle.{publication_of}
use pe_review_agent.Jobs.Store.Publications.{
  JobIdentity, begin_publication, begin_row, begin_with, publication_fingerprint,
}
use pe_review_agent.Prelude.{
  ==_refl, List, Option, ap, arith, find?, none, refl, some, some_inj, subst, subst₂, sym, true, ℕ,
  ◌==◌, ◌∙◌, ◌∷◌, ◌≡◌,
}
use pe_review_agent.Prelude.Result.{>>=-eq-ok, guard, ok}

inserted :
    (i : ℕ) (p : Publication) (db db' : Db)
    → p.job_id ≡ i
    → db'.publications ≡ p ∷ db.publications
    → publication_of i db' ≡ some p
unfolding find?
inserted i p db db' e s =
    subst (λ (ps : List Publication). find? (λ (x : Publication). x.job_id == i) ps ≡ some p)
      (sym s) (rw (e, ==_refl i) refl)

module _ (digest : JobIdentity → Name → Name) where
  -- The publication that `begin_publication` answers with is the job's, and has its fingerprint.
  begun_with :
      (i : ℕ) (payload : Name) (job : Job) (o : Option Publication) (db db' : Db) (p : Publication)
      → publication_of i db ≡ o
      → begin_with digest i payload job o db ≡ ok (db', p)
      → (publication_of i db' ≡ some p)
        × (p.publication_fingerprint ≡ publication_fingerprint digest job payload)
        × (db'.jobs ≡ db.jobs)
        × ((q : Publication) → o ≡ some q → db' ≡ db)
  unfolding begin_with find?
  begun_with i payload job none db db' p e h = (inserted i p db db' (cc) (cc), cc, cc, λ q n. cc)
  begun_with i payload job (some q) db db' p e h =
      let f : (q.publication_fingerprint == publication_fingerprint digest job payload) ≡ true =
        ground arith in
      let (a, b) : (db ≡ db') × (q ≡ p) = ground arith in
      (
        subst₂ (λ d x. publication_of i d ≡ some x) a b e,
        subst
            (λ (x : Publication).
              x.publication_fingerprint ≡ publication_fingerprint digest job payload)
            b (ground arith),
        ap (λ (d : Db). d.jobs) (sym a),
        λ x n. sym a,
      )

  begin_row-ok :
      (now i : ℕ) (worker payload : Name) (o : Option Job) (db : Db) (x : Db × Publication)
      → begin_row digest now i worker payload o db ≡ ok x
      → (job : Job) × (o ≡ some job)
        × (begin_with digest i payload job (publication_of i db) db ≡ ok x)
  unfolding begin_row
  begin_row-ok now i worker payload none db x h = cc
  begin_row-ok now i worker payload (some job) db x h =
      let (u, e, f) = >>=-eq-ok (require_live_lease now job worker) _ h in
      let (w, g, k) = >>=-eq-ok (guard (state_eq job.state publishing) not_publishing) _ f in
      (job, refl, k)

  begun :
      (now i : ℕ) (worker payload : Name) (db db' : Db) (p : Publication)
      → begin_publication digest now i worker payload db ≡ ok (db', p)
      → (job : Job) × (find_job i db ≡ some job)
        × (publication_of i db' ≡ some p)
        × (p.publication_fingerprint ≡ publication_fingerprint digest job payload)
        × (db'.jobs ≡ db.jobs)
        × ((q : Publication) → publication_of i db ≡ some q → db' ≡ db)
  unfolding begin_publication
  begun now i worker payload db db' p h =
      let (job, f, e) = begin_row-ok now i worker payload (find_job i db) db (db', p) h in
      let (a, b, c, d) = begun_with i payload job (publication_of i db) db db' p refl e in
      (job, f, a, b, c, d)

  -- Once a publication was begun, whoever begins one for that job again, with no transaction in
  -- between, gets the same publication and changes nothing, and only with a payload of the same
  -- fingerprint.
  pub begin_publication_once :
      (now now' i : ℕ) (worker worker' payload payload' : Name) (db db1 db2 : Db)
      (p q : Publication)
      → begin_publication digest now i worker payload db ≡ ok (db1, p)
      → begin_publication digest now' i worker' payload' db1 ≡ ok (db2, q)
      → (q ≡ p)
        × (db2 ≡ db1)
        × ((job : Job) × (find_job i db1 ≡ some job)
            × (publication_fingerprint digest job payload'
                ≡ publication_fingerprint digest job payload))
  unfolding find_job
  begin_publication_once now now' i worker worker' payload payload' db db1 db2 p q h h' =
      let (job, f, a, b, c, d) = begun now i worker payload db db1 p h in
      let (job', f', a', b', c', d') = begun now' i worker' payload' db1 db2 q h' in
      let still : find_job i db1 ≡ some job =
        subst (λ (js : List Job). find? (λ j. j.id == i) js ≡ some job) (sym c) f in
      let same : job' ≡ job = some_inj (sym f' ∙ still) in
      let unchanged : db2 ≡ db1 = d' p a in
      let one : q ≡ p =
        some_inj (sym (subst (λ (x : Db). publication_of i x ≡ some q) unchanged a') ∙ a) in
      (
        one,
        unchanged,
        (
          job,
          still,
          sym (
                subst
                  (λ (x : Job).
                    q.publication_fingerprint ≡ publication_fingerprint digest x payload')
                  same b')
              ∙ ap (λ (x : Publication). x.publication_fingerprint) one
              ∙ b,
        ),
      )
