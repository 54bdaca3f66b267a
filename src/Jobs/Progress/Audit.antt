-- ===== src/Jobs/Progress/Audit.antt =====
-- The audit of src/pe_review_agent/jobs/progress.py is not rewritten, and the saved progress moves on, over
-- any sequence of transactions.
use pe_review_agent.Jobs.Progress.{
  Backend, Invocation, InvocationRow, Ledger, check_attempt, find_invocation, guard_lease,
  invocation_row, is_invocation, is_started, put_invocation, record_in_attempt, record_invocation,
}
use pe_review_agent.Jobs.Progress.Kept.{find?-replace_other}
use pe_review_agent.Jobs.Rows.{Attempt}
use pe_review_agent.Jobs.Store.{find_job}
use pe_review_agent.Prelude.{
  Bool-cases, List, Option, arith, false, find?, find?-replace_first, find?_passes, inl, inr, none,
  refl, some, subst, sym, true, ℕ, ◌==◌, ◌∙◌, ◌≡◌,
}
use pe_review_agent.Prelude.Result.{>>=-eq-ok, ok}

-- What may follow a recorded invocation.
pub record IsAudited (old_row new_row : InvocationRow) : Type 0 where
  pub same_job : new_row.job_id ≡ old_row.job_id
  pub same_attempt : new_row.attempt_id ≡ old_row.attempt_id
  pub same_id : new_row.invocation.id ≡ old_row.invocation.id
  pub same_work : new_row.invocation.identity ≡ old_row.invocation.identity
  pub frozen : is_started old_row.invocation.outcome.status ≡ false → new_row ≡ old_row

pub IsAudited-refl : (r : InvocationRow) → IsAudited r r
IsAudited-refl r = record {
  same_job = refl;
  same_attempt = refl;
  same_id = refl;
  same_work = refl;
  frozen = λ _. refl;
}

pub IsAudited-trans : (p q r : InvocationRow) → IsAudited p q → IsAudited q r → IsAudited p r
IsAudited-trans p q r h k = record {
  same_job = k.same_job ∙ h.same_job;
  same_attempt = k.same_attempt ∙ h.same_attempt;
  same_id = k.same_id ∙ h.same_id;
  same_work = k.same_work ∙ h.same_work;
  frozen = λ n.
      let e = h.frozen n in
      k.frozen
        (subst (λ (x : InvocationRow). is_started x.invocation.outcome.status ≡ false) (sym e) n)
      ∙ e;
}

invocation_row-IsAudited :
    (b : Backend) (attempt : ℕ) (v : Invocation) (row r : InvocationRow)
    → invocation_row b attempt v (some row) ≡ ok r
    → IsAudited row r
unfolding invocation_row
invocation_row-IsAudited b attempt v row r h = record {
  same_job = ground arith;
  same_attempt = ground arith;
  same_id = ground arith;
  same_work = ground arith;
  frozen = λ n. ground arith;
}

abbrev pub Audits : ℕ → InvocationRow → Ledger → Type 0
Audits i old_row t =
    (row : InvocationRow) × (find_invocation i t ≡ some row) × IsAudited old_row row

abbrev put_in : ℕ → InvocationRow → Option InvocationRow → Ledger → Ledger
put_in i r o t = record t { invocations = put_invocation i r o t.invocations }

put-here :
    (b : Backend) (attempt : ℕ) (v : Invocation) (t : Ledger) (row r : InvocationRow)
    → find_invocation v.id t ≡ some row
    → invocation_row b attempt v (some row) ≡ ok r
    → Audits v.id row (put_in v.id r (find_invocation v.id t) t)
unfolding find_invocation put_invocation
put-here b attempt v t row r found h =
    let i = v.id in
    let k = invocation_row-IsAudited b attempt v row r h in
    let was : is_invocation i row ≡ true = find?_passes (is_invocation i) t.invocations found in
    let same = k.same_id in
    let passes : is_invocation i r ≡ true = ground arith in
    (
      r,
      subst
          (λ (o : Option InvocationRow).
            find? (is_invocation i) (put_invocation i r o t.invocations) ≡ some r)
          (sym found) (find?-replace_first (is_invocation i) r t.invocations found passes),
      k,
    )

put-elsewhere :
    (i j : ℕ) (r : InvocationRow) (o : Option InvocationRow) (rows : List InvocationRow)
    → (j == i) ≡ false
    → r.invocation.id ≡ j
    → find? (is_invocation i) (put_invocation j r o rows) ≡ find? (is_invocation i) rows
unfolding put_invocation find?
put-elsewhere i j r none rows n e =
    let fails : is_invocation i r ≡ false = ground arith in rw fails refl
put-elsewhere i j r (some old) rows n e =
    find?-replace_other (is_invocation i) (is_invocation j) r rows (λ x h. ground arith)
      (ground arith)

invocation_row-id :
    (b : Backend) (attempt : ℕ) (v : Invocation) (t : Ledger) (o : Option InvocationRow)
    (r : InvocationRow)
    → find_invocation v.id t ≡ o
    → invocation_row b attempt v o ≡ ok r
    → r.invocation.id ≡ v.id
unfolding invocation_row find_invocation
invocation_row-id b attempt v t none r e h = ground arith
invocation_row-id b attempt v t (some row) r e h =
    let was : is_invocation v.id row ≡ true = find?_passes (is_invocation v.id) t.invocations e in
    ground arith

put-apart :
    (i j : ℕ) (r : InvocationRow) (t : Ledger)
    → (j == i) ≡ false
    → r.invocation.id ≡ j
    → find_invocation i (put_in j r (find_invocation j t) t) ≡ find_invocation i t
unfolding find_invocation
put-apart i j r t n e = put-elsewhere i j r (find_invocation j t) t.invocations n e

in_attempt-Audits :
    (b : Backend) (v : Invocation) (t t' : Ledger) (i : ℕ) (row : InvocationRow) (o : Option ℕ)
    → record_in_attempt b v t o ≡ ok t'
    → find_invocation i t ≡ some row
    → Audits i row t'
unfolding record_in_attempt
in_attempt-Audits b v t t' i row none h found = cc
in_attempt-Audits b v t t' i row (some attempt) h found =
    let (u, e, f) =
      >>=-eq-ok (check_attempt b (find? (λ (a : Attempt). a.id == attempt) t.db.attempts)) _ h in
    let (r, g, k) = >>=-eq-ok (invocation_row b attempt v (find_invocation v.id t)) _ f in
    let s : put_in v.id r (find_invocation v.id t) t ≡ t' = cc in
    let same_id = invocation_row-id b attempt v t (find_invocation v.id t) r refl g in
    subst (Audits i row) s (elim (Bool-cases (v.id == i)) [
      | inl c ↦
          let ei : i ≡ v.id = ground arith in
          let there = subst (λ (x : ℕ). find_invocation x t ≡ some row) ei found in
          subst (λ (x : ℕ). Audits x row (put_in v.id r (find_invocation v.id t) t)) (sym ei)
            (put-here b attempt v t row r there
              (subst (λ (y : Option InvocationRow). invocation_row b attempt v y ≡ ok r) there g))
      | inr n ↦ (row, put-apart i v.id r t n same_id ∙ found, IsAudited-refl row)
    ])

pub record_invocation-Audits :
    (now : ℕ) (b : Backend) (v : Invocation) (t t' : Ledger) (i : ℕ) (row : InvocationRow)
    → record_invocation now b v t ≡ ok t'
    → find_invocation i t ≡ some row
    → Audits i row t'
unfolding record_invocation
record_invocation-Audits now b v t t' i row h found =
    let (u, e, f) = >>=-eq-ok (guard_lease now b.worker_id (find_job b.job_id t.db)) _ h in
    in_attempt-Audits b v t t' i row b.attempt_id f found
