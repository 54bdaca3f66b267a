-- ===== src/Jobs/Store/Kept.antt =====
-- src/pe_review_agent/jobs/store.py: each transaction on the life of a job keeps the table valid.
use pe_review_agent.Domain.{Name, is_terminal_state}
use pe_review_agent.Jobs.Rows.{Db, Job}
use pe_review_agent.Jobs.Store.{find_job, is_newer}
use pe_review_agent.Jobs.Store.Claims.{earliest_passes}
use pe_review_agent.Jobs.Store.Leases.{
  PublishGuardStatus, beats, claim_next, claim_row, claimable, earliest, guard_loses, guard_row,
  heartbeat, lease_free, refresh_publish_guard, take_claim,
}
use pe_review_agent.Jobs.Store.Order.{Related-update_where, Tames, Tames-refl}
use pe_review_agent.Jobs.Store.Soundness.{IsSound, take_claim-IsSound}
use pe_review_agent.Jobs.Store.Tame.{lease_only-Tames, take_claim-Tames}
use pe_review_agent.Jobs.Store.Validity.{IsValid, IsValid-Tamed, put_job-IsValid}
use pe_review_agent.Prelude.{
  All-Elem, All-find?, All-update_where, Elem-find?, Option, any, arith, false, if_intro, is_none,
  none, refl, some, true, ℕ, ◌+◌, ◌==◌, ◌≡◌,
}

claimable_live :
    (now : ℕ) (db : Db) (job : Job)
    → claimable now db job ≡ true
    → (is_terminal_state job.state ≡ false) × (lease_free now job ≡ true)
unfolding claimable
claimable_live now db job t = ground arith

claim_row-IsValid :
    (now : ℕ) (worker : Name) (lease : ℕ) (db : Db) (o : Option Job)
    → earliest (claimable now db) db.jobs ≡ o
    → IsValid db
    → IsValid (claim_row now worker lease db o).0
unfolding claim_row
claim_row-IsValid now worker lease db none e v = v
claim_row-IsValid now worker lease db (some job) e v =
    let (t, m) = earliest_passes (claimable now db) db.jobs job e in
    let (live, free) = claimable_live now db job t in
    put_job-IsValid db job (take_claim now lease worker job).0 v m
      (take_claim-IsSound now lease worker job live free (All-Elem IsSound db.jobs v.sound m))
      (take_claim-Tames now lease worker job live)

pub claim_next-IsValid :
    (now : ℕ) (worker : Name) (lease : ℕ) (db : Db)
    → IsValid db
    → IsValid (claim_next now worker lease db).0
unfolding claim_next
claim_next-IsValid now worker lease db v =
    claim_row-IsValid now worker lease db (earliest (claimable now db) db.jobs) refl v

-- Setting the end of a lease that some worker holds.
lease_only-IsSound :
    (t : ℕ) (job : Job)
    → is_none job.lease_owner ≡ false
    → IsSound job
    → IsSound (record job { lease_expires_at = some t })
lease_only-IsSound t job n h = ground arith

pub heartbeat-IsValid :
    (now i : ℕ) (worker : Name) (lease : ℕ) (db : Db)
    → IsValid db
    → IsValid (heartbeat now i worker lease db).0
unfolding heartbeat
heartbeat-IsValid now i worker lease db v =
    let beat = λ (j : Job). record j { lease_expires_at = some (now + lease) } in
    IsValid-Tamed db (heartbeat now i worker lease db).0
      (Related-update_where Tames Tames-refl (beats now worker i) beat db.jobs
        (λ x t. lease_only-Tames (some (now + lease)) x))
      (omega arith)
      (All-update_where IsSound (beats now worker i) beat db.jobs
        (λ x t h. lease_only-IsSound (now + lease) x (owned now worker i x t) h) v.sound)
      v
  where
    owned :
        (now : ℕ) (worker : Name) (i : ℕ) (x : Job)
        → beats now worker i x ≡ true
        → is_none x.lease_owner ≡ false
    owned now worker i x t = ground arith

kept :
    (now : ℕ) (worker : Name) (job : Job)
    → guard_loses now worker job ≡ false
    → is_none job.lease_owner ≡ false
unfolding guard_loses
kept now worker job l = ground arith

guard_row-IsValid :
    (now i : ℕ) (worker : Name) (lease : ℕ) (db : Db) (o : Option Job)
    → find_job i db ≡ o
    → IsValid db
    → IsValid (guard_row now worker lease db o).0
unfolding find_job guard_row
guard_row-IsValid now i worker lease db none e v = v
guard_row-IsValid now i worker lease db (some job) e v =
    let P : Db × PublishGuardStatus → Type 0 = λ r. IsValid r.0 in
    if_intro P (guard_loses now worker job) _ _ (λ l. v)
      (λ l.
        if_intro P (any (is_newer job) db.jobs) _ _ (λ n. v)
          (λ n.
            put_job-IsValid db job (record job { lease_expires_at = some (now + lease) }) v
              (Elem-find? (λ j. j.id == i) db.jobs e)
              (lease_only-IsSound (now + lease) job (kept now worker job l)
                (All-find? IsSound (λ j. j.id == i) db.jobs v.sound e))
              (lease_only-Tames (some (now + lease)) job)))

pub refresh_publish_guard-IsValid :
    (now i : ℕ) (worker : Name) (lease : ℕ) (db : Db)
    → IsValid db
    → IsValid (refresh_publish_guard now i worker lease db).0
unfolding refresh_publish_guard
refresh_publish_guard-IsValid now i worker lease db v =
    guard_row-IsValid now i worker lease db (find_job i db) refl v
