-- ===== src/Jobs/Store/Guarded.antt =====
-- src/pe_review_agent/jobs/store.py: the guard in front of a POST to Gerrit.
use pe_review_agent.Domain.{Name, publishing}
use pe_review_agent.Jobs.Rows.{Db, Job}
use pe_review_agent.Jobs.Store.{find_job, is_newer, require_live_lease}
use pe_review_agent.Jobs.Store.Fencing.{Holds, require_live_lease-Holds}
use pe_review_agent.Jobs.Store.Leases.{guard_loses, guard_ok, guard_row, refresh_publish_guard}
use pe_review_agent.Prelude.{
  All, All-any-false, Bool, List, Option, [], any, arith, false, none, none_ne, refl, some,
  some_inj, subst, sym, ℕ, ◌↔◌, ◌∙◌, ◌∷◌, ◌≡◌,
}
use pe_review_agent.Prelude.Result.{ok}

-- What the guard has established when it answers that the review may be posted.
pub record MayPost (now i : ℕ) (worker : Name) (db : Db) : Type 0 where
  pub job : Job
  pub found : find_job i db ≡ some job
  pub publishes : job.state ≡ publishing
  pub held : Holds now worker job
  pub latest : All (λ other. is_newer job other ≡ false) db.jobs

keeps_lease :
    (now : ℕ) (worker : Name) (job : Job)
    → (guard_loses now worker job ≡ false)
      ↔ ((job.state ≡ publishing) × (require_live_lease now job worker ≡ ok tt))
unfolding guard_loses require_live_lease
keeps_lease now worker job =
    (λ h. (ground arith, ground arith), λ h. let a = h.0 in let b = h.1 in ground arith)

answers :
    (now : ℕ) (worker : Name) (lease : ℕ) (db : Db) (job : Job)
    → ((guard_row now worker lease db (some job)).1 ≡ guard_ok)
      ↔ ((guard_loses now worker job ≡ false) × (any (is_newer job) db.jobs ≡ false))
unfolding guard_row
answers now worker lease db job = (λ h. (ground arith, ground arith), λ (a, b). rw (a, b) refl)

any-All-false : (p : Job → Bool) (xs : List Job) → All (λ x. p x ≡ false) xs → any p xs ≡ false
unfolding any
any-All-false p [] h = refl
any-All-false p (x ∷ xs) h = rw h.0 (any-All-false p xs h.1)

guard_row-MayPost :
    (now i : ℕ) (worker : Name) (lease : ℕ) (db : Db) (o : Option Job)
    → find_job i db ≡ o
    → ((guard_row now worker lease db o).1 ≡ guard_ok) ↔ MayPost now i worker db
unfolding guard_row
guard_row-MayPost now i worker lease db none f = (λ h. cc, λ m. none_ne (sym f ∙ m.found))
guard_row-MayPost now i worker lease db (some job) f = (
  λ h.
      let (a, b) = (answers now worker lease db job).0 h in
      let (s, l) = (keeps_lease now worker job).0 a in
      record {
        job = job;
        found = f;
        publishes = s;
        held = (require_live_lease-Holds now worker job).0 l;
        latest = All-any-false (is_newer job) db.jobs b;
      },
  λ m.
      let e : m.job ≡ job = some_inj (sym m.found ∙ f) in
      (answers now worker lease db job).1 (
        (keeps_lease now worker job).1 (
          subst (λ (j : Job). j.state ≡ publishing) e m.publishes,
          (require_live_lease-Holds now worker job).1 (subst (Holds now worker) e m.held),
        ),
        subst (λ (j : Job). any (is_newer j) db.jobs ≡ false) e
            (any-All-false (is_newer m.job) db.jobs m.latest),
      ),
)

-- The guard answers OK exactly when the job is PUBLISHING, the worker holds a live lease on it, and
-- no newer Patch Set of its Change is known.
pub refresh_publish_guard-MayPost :
    (now i : ℕ) (worker : Name) (lease : ℕ) (db : Db)
    → ((refresh_publish_guard now i worker lease db).1 ≡ guard_ok) ↔ MayPost now i worker db
unfolding refresh_publish_guard
refresh_publish_guard-MayPost now i worker lease db =
    guard_row-MayPost now i worker lease db (find_job i db) refl
