-- ===== src/Service/Retry/Bounded.antt =====
-- The attempts of src/pe_review_agent/service.py: a stage is not attempted beyond its retry budget.
use pe_review_agent.Domain.{AttemptStage, Name, reconcile, stage_eq}
use pe_review_agent.Jobs.Rows.{Attempt, Db, Job}
use pe_review_agent.Jobs.Store.{find_job}
use pe_review_agent.Jobs.Store.Attempts.{
  ProviderRetryStatus, consumed_of, count_consumed_retry_attempts, is_consumed, may_start,
  new_attempt, one_more, provider_retry_status, start_attempt, start_row,
}
use pe_review_agent.Jobs.Store.Lifecycle.{mark_failed_permanent}
use pe_review_agent.Prelude.{
  Bool, Bool-cases, List, Option, [], ap, arith, clash, count_where, false, find?, if_intro,
  if◌then◌else◌, inl, inr, none, none_ne, refl, some, some_inj, subst, sym, true, update_where, ℕ,
  ◌+◌, ◌<◌, ◌==◌, ◌∙◌, ◌∷◌, ◌≡◌, ◌≤◌,
}
use pe_review_agent.Prelude.Result.{>>=-eq-ok, ok}
use pe_review_agent.Service.Retry.{
  RetrySettings, admit, can_start_attempt, exhausted, may_attempt, retry_budget,
}

-- A row that is looked up after an UPDATE that does not touch what the lookup reads.
find?-update_where :
    (q p : Job → Bool) (f : Job → Job) (xs : List Job) (x : Job)
    → ((y : Job) → q (f y) ≡ q y)
    → find? q xs ≡ some x
    → find? q (update_where p f xs) ≡ some (if p x then f x else x)
unfolding find? update_where
find?-update_where q p f [] x same e = none_ne e
find?-update_where q p f (y ∷ xs) x same e = elim (Bool-cases (q y)) [
  | inl t ↦
      let z : y ≡ x = some_inj (rw t at e) in
      rw (kept y t) (ap (λ (w : Job). some (if p w then f w else w)) z)
  | inr n ↦ rw (dropped y n) (find?-update_where q p f xs x same (rw n at e))
]
  where
    kept : (y : Job) → q y ≡ true → q (if p y then f y else y) ≡ true
    kept y t = if_intro (λ w. q w ≡ true) (p y) (f y) y (λ _. same y ∙ t) (λ _. t)

    dropped : (y : Job) → q y ≡ false → q (if p y then f y else y) ≡ false
    dropped y n = if_intro (λ w. q w ≡ false) (p y) (f y) y (λ _. same y ∙ n) (λ _. n)

find?-update_where-none :
    (i : ℕ) (p : Job → Bool) (xs : List Job)
    → find? (λ j. j.id == i) xs ≡ none
    → find? (λ j. j.id == i) (update_where p one_more xs) ≡ none
unfolding find? update_where
find?-update_where-none i p [] e = refl
find?-update_where-none i p (y ∷ xs) e = elim (Bool-cases (y.id == i)) [
  | inl t ↦ none_ne (sym (rw t at e))
  | inr n ↦
      let same : ((if p y then one_more y else y).id == i) ≡ false =
        if_intro (λ (w : Job). (w.id == i) ≡ false) (p y) (one_more y) y (λ _. n) (λ _. n) in
      rw same (find?-update_where-none i p xs (rw n at e))
]

-- What counts against the budget of a job does not depend on its number of attempts.
count-one_more :
    (test : Bool) (job : Job) (stage : AttemptStage) (attempts : List Attempt)
    → count_where (is_consumed (if test then one_more job else job) stage) attempts
      ≡ count_where (is_consumed job stage) attempts
unfolding is_consumed
count-one_more true job stage attempts = refl
count-one_more false job stage attempts = refl

count-cons-le :
    (p : Attempt → Bool) (a : Attempt) (attempts : List Attempt)
    → count_where p (a ∷ attempts) ≤ count_where p attempts + 1
unfolding count_where
count-cons-le p a attempts = ground arith

start_row-ok :
    (now i : ℕ) (stage : AttemptStage) (worker : Name) (o : Option Job) (db db' : Db) (a : ℕ)
    → start_row now i stage worker o db ≡ ok (db', a)
    → (x : Attempt) × (db'.attempts ≡ x ∷ db.attempts)
      × (db'.jobs ≡ update_where (may_start now worker i) one_more db.jobs)
unfolding start_row
start_row-ok now i stage worker none db db' a h = cc
start_row-ok now i stage worker (some job) db db' a h =
    (new_attempt db.next_id i stage worker job, cc, cc)

counted :
    (i : ℕ) (other : AttemptStage) (p : Job → Bool) (o : Option Job) (x : Attempt) (db db' : Db)
    → find_job i db ≡ o
    → db'.attempts ≡ x ∷ db.attempts
    → db'.jobs ≡ update_where p one_more db.jobs
    → count_consumed_retry_attempts i other db' ≤ consumed_of other db o + 1
unfolding count_consumed_retry_attempts consumed_of find_job
counted i other p none x db db' e s t =
    let gone : find? (λ j. j.id == i) db'.jobs ≡ none =
      ap (find? (λ j. j.id == i)) t ∙ find?-update_where-none i p db.jobs e in
    rw gone (omega arith)
counted i other p (some job) x db db' e s t =
    let there : find? (λ j. j.id == i) db'.jobs ≡ some (if p job then one_more job else job) =
      ap (find? (λ j. j.id == i)) t
      ∙ find?-update_where (λ j. j.id == i) p one_more db.jobs job (λ y. refl) e in
    let n = count-one_more (p job) job other (x ∷ db.attempts) in
    let m = count-cons-le (is_consumed job other) x db.attempts in rw (there, s, n) m

-- Starting an attempt counts at most one more against the budget of any stage.
pub start_attempt-count :
    (now i : ℕ) (stage other : AttemptStage) (worker : Name) (db db' : Db) (a : ℕ)
    → start_attempt now i stage worker db ≡ ok (db', a)
    → count_consumed_retry_attempts i other db' ≤ count_consumed_retry_attempts i other db + 1
unfolding start_attempt count_consumed_retry_attempts
start_attempt-count now i stage other worker db db' a h =
    let (x, s, t) =
      start_row-ok now i stage worker (find? (may_start now worker i) db.jobs) db db' a h in
    counted i other (may_start now worker i) (find_job i db) x db db' refl s t

-- What `_can_start_attempt` leaves.
admit-ok :
    (now i : ℕ) (worker : Name) (b r : Bool) (db db' : Db)
    → admit now i worker b db ≡ ok (db', r)
    → (r ≡ b)
      × (b ≡ true → db' ≡ db)
      × (b ≡ false
          → (job : Job) × (mark_failed_permanent now i exhausted worker db ≡ ok (db', job)))
unfolding admit
admit-ok now i worker true r db db' h = (cc, λ _. cc, λ n. clash refl n)
admit-ok now i worker false r db db' h =
    let ((db1, job), e, f) = >>=-eq-ok (mark_failed_permanent now i exhausted worker db) _ h in
    let (same, answer) : (db1 ≡ db') × (r ≡ false) = (cc, cc) in
    (
      answer,
      λ t. clash t refl,
      λ n. (
        job,
        subst (λ (d : Db). mark_failed_permanent now i exhausted worker db ≡ ok (d, job)) same e,
      ),
    )

module _ (uniform : ℕ → ℕ → ℕ) (s : RetrySettings) where
  left :
      (now : ℕ) (stage : AttemptStage) (consumed : ℕ) (status : ProviderRetryStatus)
      → may_attempt uniform s now stage consumed status ≡ true
      → stage_eq stage reconcile ≡ false
      → consumed < retry_budget s stage
  unfolding may_attempt
  left now stage consumed status t n = ground arith

  -- A stage that may be attempted has budget left, and nothing was changed.
  allowed_attempt :
      (now i : ℕ) (stage : AttemptStage) (worker : Name) (db db' : Db)
      → can_start_attempt uniform s now i stage worker db ≡ ok (db', true)
      → (db' ≡ db)
        × (stage_eq stage reconcile ≡ false
            → count_consumed_retry_attempts i stage db < retry_budget s stage)
  unfolding can_start_attempt
  allowed_attempt now i stage worker db db' h =
      let consumed = count_consumed_retry_attempts i stage db in
      let status = provider_retry_status i stage db in
      let (a, b, c) =
        admit-ok now i worker (may_attempt uniform s now stage consumed status) true db db' h in
      (b (sym a), left now stage consumed status (sym a))

  -- An attempt that a worker starts after `_can_start_attempt` has let it through leaves no more
  -- attempts counted against the stage than its budget, save for RECONCILE, which has none.
  pub can_start_attempt-retry_budget :
      (now now' i : ℕ) (stage : AttemptStage) (worker : Name) (db db1 db2 : Db) (a : ℕ)
      → stage_eq stage reconcile ≡ false
      → can_start_attempt uniform s now i stage worker db ≡ ok (db1, true)
      → start_attempt now' i stage worker db1 ≡ ok (db2, a)
      → count_consumed_retry_attempts i stage db2 ≤ retry_budget s stage
  can_start_attempt-retry_budget now now' i stage worker db db1 db2 a n h k =
      let (e, left) = allowed_attempt now i stage worker db db1 h in
      let b = left n in
      let c =
        start_attempt-count now' i stage stage worker db db2 a
          (subst (λ (d : Db). start_attempt now' i stage worker d ≡ ok (db2, a)) e k) in
      omega arith
