-- ===== src/Jobs/Store/Validity.antt =====
-- What holds of the whole table of src/pe_review_agent/jobs/store.py between two transactions.
use pe_review_agent.Jobs.Rows.{Db, Job, StoreError}
use pe_review_agent.Jobs.Store.{find_job, on_job, on_job-ok, put_job}
use pe_review_agent.Jobs.Store.Keys.{
  AreBelow, AreBelow-Related, IsUnique, IsUnique-Related, find?-id, id_eq, id_eq-SameIdentity,
  key_eq, key_eq-SameIdentity,
}
use pe_review_agent.Jobs.Store.Order.{
  IsOrdered, IsOrdered-Tamed, Related, Related-Tamed, Related-refl, Related-replace_first,
  SameIdentity, Tamed, Tames, Tames-refl,
}
use pe_review_agent.Jobs.Store.Soundness.{IsSound}
use pe_review_agent.Prelude.{
  All, All-find?, All-replace_first, All-imp, Elem, Elem-find?, arith, find?, replace_first, some,
  subst, sym, ℕ, ◌<◌, ◌==◌, ◌≡◌, ◌≤◌,
}
use pe_review_agent.Prelude.Result.{Result, ok}

pub record IsValid (db : Db) : Type 0 where
  pub sound : All IsSound db.jobs
  pub ids : IsUnique id_eq db.jobs
  pub keys : IsUnique key_eq db.jobs
  pub below : AreBelow db.next_id db.jobs
  pub ordered : IsOrdered db.jobs

-- A change of the table that keeps what identifies its rows, where the new rows are sound and in
-- order.
pub IsValid-Related :
    (db db' : Db)
    → Related SameIdentity db.jobs db'.jobs
    → db.next_id ≤ db'.next_id
    → All IsSound db'.jobs
    → IsOrdered db'.jobs
    → IsValid db
    → IsValid db'
IsValid-Related db db' t n s o v = record {
  sound = s;
  ids = IsUnique-Related id_eq id_eq-SameIdentity db.jobs db'.jobs t v.ids;
  keys = IsUnique-Related key_eq key_eq-SameIdentity db.jobs db'.jobs t v.keys;
  below =
      All-imp (λ x. x.id < db.next_id) (λ x. x.id < db'.next_id) db'.jobs (λ x h. omega arith)
        (AreBelow-Related db.next_id db.jobs db'.jobs t v.below);
  ordered = o;
}

-- A tame change of the table, where the new rows are sound.
pub IsValid-Tamed :
    (db db' : Db)
    → Tamed db.jobs db'.jobs
    → db.next_id ≤ db'.next_id
    → All IsSound db'.jobs
    → IsValid db
    → IsValid db'
IsValid-Tamed db db' t n s v =
    IsValid-Related db db' (Related-Tamed db.jobs db'.jobs t) n s
      (IsOrdered-Tamed db.jobs db'.jobs t v.ordered) v

-- A change that leaves the table of jobs alone.
pub IsValid-of_same_jobs :
    (db db' : Db) → db'.jobs ≡ db.jobs → db.next_id ≤ db'.next_id → IsValid db → IsValid db'
IsValid-of_same_jobs db db' e n v =
    IsValid-Tamed db db' (subst (Tamed db.jobs) (sym e) (Related-refl Tames Tames-refl db.jobs)) n
      (subst (All IsSound) (sym e) v.sound) v

pub put_job-IsValid :
    (db : Db) (job job' : Job)
    → IsValid db
    → Elem job db.jobs
    → IsSound job'
    → Tames job job'
    → IsValid (put_job job' db)
unfolding put_job
put_job-IsValid db job job' v m s t =
    IsValid-Tamed db (record db { jobs = replace_first (λ k. k.id == job'.id) job' db.jobs })
      (Related-replace_first Tames Tames-refl (λ k. k.id == job'.id) job' db.jobs
        (subst (λ (i : ℕ). find? (λ k. k.id == i) db.jobs ≡ some job) (sym t.same_id)
          (find?-id db.jobs job v.ids m))
        t)
      (omega arith) (All-replace_first IsSound (λ k. k.id == job'.id) job' db.jobs s v.sound) v

-- A transaction on one row keeps the table valid, if its change of the row found is sound and tame.
pub on_job-found-IsValid :
    (i : ℕ) (change : Job → Result StoreError Job) (db db' : Db) (r : Job)
    → ((job job' : Job)
        → find_job i db ≡ some job
        → IsSound job
        → change job ≡ ok job'
        → IsSound job' × Tames job job')
    → on_job i change db ≡ ok (db', r)
    → IsValid db
    → IsValid db'
unfolding find_job
on_job-found-IsValid i change db db' r keep e v =
    let (job, found, changed, saved) = on_job-ok i change db db' r e in
    let (s, t) =
      keep job r found (All-find? IsSound (λ j. j.id == i) db.jobs v.sound found) changed in
    subst IsValid (sym saved)
      (put_job-IsValid db job r v (Elem-find? (λ j. j.id == i) db.jobs found) s t)

pub on_job-IsValid :
    (i : ℕ) (change : Job → Result StoreError Job) (db db' : Db) (r : Job)
    → ((job job' : Job) → IsSound job → change job ≡ ok job' → IsSound job' × Tames job job')
    → on_job i change db ≡ ok (db', r)
    → IsValid db
    → IsValid db'
on_job-IsValid i change db db' r keep e v =
    on_job-found-IsValid i change db db' r (λ job job' f. keep job job') e v
