-- ===== src/Jobs/Store/Handed.antt =====
-- src/pe_review_agent/jobs/store.py: what `claim_next` hands to a worker, and what it leaves alone.
use pe_review_agent.Domain.{Name, is_terminal_state, retry_wait}
use pe_review_agent.Jobs.Rows.{Db, Job}
use pe_review_agent.Jobs.Store.{find_job, put_job}
use pe_review_agent.Jobs.Store.Claims.{earliest_first, earliest_passes}
use pe_review_agent.Jobs.Store.Keys.{find?-id}
use pe_review_agent.Jobs.Store.Leases.{
  claim_next, claim_row, claimable, due_before, earliest, lease_free, take_claim,
  unresolved_older_publication,
}
use pe_review_agent.Jobs.Store.Soundness.{IsSound, retry_target_fits}
use pe_review_agent.Jobs.Store.Validity.{IsValid}
use pe_review_agent.Prelude.{
  All, All-Elem, All-of_Elem, Bool-cases, Elem, List, Option, [], arith, clash, false, find?,
  if◌then◌else◌, inl, inr, none, refl, replace_first, some, some_inj, subst, sym, true, ℕ, ◌+◌,
  ◌==◌, ◌∙◌, ◌∷◌, ◌≡◌, ◌≢◌,
}

-- What is true of a job that `claim_next` hands out, of the row as it was, and of the table.
pub record IsHanded (now : ℕ) (worker : Name) (lease : ℕ) (db : Db) (job : Job) : Type 0 where
  pub owner : job.lease_owner ≡ some worker
  pub until : job.lease_expires_at ≡ some (now + lease)
  pub live : is_terminal_state job.state ≡ false
  pub awake : job.state ≢ retry_wait
  pub before : Job
  pub known : Elem before db.jobs
  pub same_id : job.id ≡ before.id
  pub free : lease_free now before ≡ true
  pub settled : unresolved_older_publication before db ≡ false
  pub first : All (λ z. claimable now db z ≡ true → due_before z before ≡ false) db.jobs

handed_row :
    (now lease : ℕ) (worker : Name) (before job : Job)
    → is_terminal_state before.state ≡ false
    → retry_target_fits before.state before.retry_state ≡ true
    → (if (take_claim now lease worker before).1
        then some (take_claim now lease worker before).0
        else none)
      ≡ some job
    → (job.lease_owner ≡ some worker)
      × (job.lease_expires_at ≡ some (now + lease))
      × (is_terminal_state job.state ≡ false)
      × (job.state ≢ retry_wait)
      × (job.id ≡ before.id)
unfolding take_claim
handed_row now lease worker before job t f h = ground arith

claimable_facts :
    (now : ℕ) (db : Db) (job : Job)
    → claimable now db job ≡ true
    → (is_terminal_state job.state ≡ false)
      × (lease_free now job ≡ true)
      × (unresolved_older_publication job db ≡ false)
unfolding claimable
claimable_facts now db job t = ground arith

claim_row-IsHanded :
    (now : ℕ) (worker : Name) (lease : ℕ) (db : Db) (o : Option Job) (job : Job)
    → earliest (claimable now db) db.jobs ≡ o
    → (claim_row now worker lease db o).1 ≡ some job
    → IsValid db
    → IsHanded now worker lease db job
unfolding claim_row
claim_row-IsHanded now worker lease db none job e h v = cc
claim_row-IsHanded now worker lease db (some before) job e h v =
    let (t, m) = earliest_passes (claimable now db) db.jobs before e in
    let (live, free, settled) = claimable_facts now db before t in
    let (a, b, c, d, i) =
      handed_row now lease worker before job live (All-Elem IsSound db.jobs v.sound m).target h in
    record {
      owner = a;
      until = b;
      live = c;
      awake = d;
      before = before;
      known = m;
      same_id = i;
      free = free;
      settled = settled;
      first =
          All-of_Elem (λ z. claimable now db z ≡ true → due_before z before ≡ false) db.jobs
            (λ z n p. earliest_first (claimable now db) db.jobs before z e n p);
    }

-- In a valid table, the job that `claim_next` hands to a worker is leased to that worker for the
-- whole lease and is neither terminal nor waiting; nobody held it before, no older Patch Set of its
-- Change may still have reached Gerrit unconfirmed, and no other claimable job was due earlier.
pub claim_next-IsHanded :
    (now : ℕ) (worker : Name) (lease : ℕ) (db : Db) (job : Job)
    → IsValid db
    → (claim_next now worker lease db).1 ≡ some job
    → IsHanded now worker lease db job
unfolding claim_next
claim_next-IsHanded now worker lease db job v h =
    claim_row-IsHanded now worker lease db (earliest (claimable now db) db.jobs) job refl h v

find?-replaced :
    (i : ℕ) (y : Job) (xs : List Job)
    → (y.id == i) ≡ false
    → find? (λ j. j.id == i) (replace_first (λ k. k.id == y.id) y xs) ≡ find? (λ j. j.id == i) xs
unfolding find? replace_first
find?-replaced i y [] n = refl
find?-replaced i y (x ∷ xs) n = elim (Bool-cases (x.id == y.id)) [
  | inl t ↦ let m : (x.id == i) ≡ false = ground arith in rw (t, n, m) refl
  | inr f ↦ elim (Bool-cases (x.id == i)) [
    | inl s ↦ rw (f, s) refl
    | inr g ↦ rw (f, g) (find?-replaced i y xs n)
  ]
]

claimed_id :
    (now lease : ℕ) (worker : Name) (job : Job) → (take_claim now lease worker job).0.id ≡ job.id
unfolding take_claim
claimed_id now lease worker job = ground arith

claim_row_leaves :
    (now : ℕ) (worker : Name) (lease : ℕ) (db : Db) (o : Option Job) (i : ℕ) (job : Job)
    → earliest (claimable now db) db.jobs ≡ o
    → IsValid db
    → find_job i db ≡ some job
    → lease_free now job ≡ false
    → find_job i (claim_row now worker lease db o).0 ≡ some job
unfolding claim_row find_job put_job
claim_row_leaves now worker lease db none i job e v f l = f
claim_row_leaves now worker lease db (some taken) i job e v f l =
    let (t, m) = earliest_passes (claimable now db) db.jobs taken e in
    let (live, free, settled) = claimable_facts now db taken t in
    let other : (taken.id == i) ≡ false = elim (Bool-cases (taken.id == i)) [
      | inr n ↦ n
      | inl s ↦
          let same : taken.id ≡ i = ground arith in
          let g =
            subst (λ (n : ℕ). find? (λ j. j.id == n) db.jobs ≡ some taken) same
              (find?-id db.jobs taken v.ids m) in
          let k : taken ≡ job = some_inj (sym g ∙ f) in
          clash (subst (λ (x : Job). lease_free now x ≡ true) k free) l
    ] in
    find?-replaced i (take_claim now lease worker taken).0 db.jobs
      (rw (claimed_id now lease worker taken) other)
    ∙ f

-- In a valid table, `claim_next` leaves a job alone that some worker holds a live lease on.
pub claim_next_leaves :
    (now : ℕ) (worker : Name) (lease : ℕ) (db : Db) (i : ℕ) (job : Job)
    → IsValid db
    → find_job i db ≡ some job
    → lease_free now job ≡ false
    → find_job i (claim_next now worker lease db).0 ≡ some job
unfolding claim_next
claim_next_leaves now worker lease db i job v f l =
    claim_row_leaves now worker lease db (earliest (claimable now db) db.jobs) i job refl v f l
