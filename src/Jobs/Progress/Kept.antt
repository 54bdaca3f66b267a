-- ===== src/Jobs/Progress/Kept.antt =====
-- The saved progress of src/pe_review_agent/jobs/progress.py only moves on.
use pe_review_agent.Domain.{Name}
use pe_review_agent.Jobs.Progress.{
  Backend, Ledger, ProgressPhase, ProgressRow, ReviewProgress, check_progress, complete, exploring,
  find_progress, guard_lease, is_complete, is_exploring, is_row, order, progress_row, same_option,
  save_progress, upsert_progress, verifying, written_progress,
}
use pe_review_agent.Jobs.Store.{find_job}
use pe_review_agent.Prelude.{
  ==_refl, Bool, Bool-cases, List, Option, [], ap, arith, false, find?, find?-replace_first, inl,
  inr, none, refl, replace_first, some, subst, subst₂, sym, true, ℕ, ◌&&◌, ◌==◌, ◌∙◌, ◌∷◌, ◌≡◌, ◌≤◌,
}
use pe_review_agent.Prelude.Result.{>>=-eq-ok, ok}

-- A row of another key is found as before.
pub find?-replace_other :
    {A : Type 0} (p q : A → Bool) (y : A) (xs : List A)
    → ((x : A) → q x ≡ true → p x ≡ false)
    → p y ≡ false
    → find? p (replace_first q y xs) ≡ find? p xs
unfolding find? replace_first
find?-replace_other p q y [] apart n = refl
find?-replace_other p q y (x ∷ xs) apart n = elim (Bool-cases (q x)) [
  | inl t ↦ let m = apart x t in rw (t, n, m) refl
  | inr f ↦ rw f (elim (Bool-cases (p x)) [
    | inl t ↦ rw t refl
    | inr m ↦ rw m (find?-replace_other p q y xs apart n)
  ])
]

-- What may follow a saved progress.
pub record IsLater (old new_progress : ReviewProgress) : Type 0 where
  pub advances : order old.phase ≤ order new_progress.phase
  pub result_kept : is_complete old.phase ≡ true → new_progress.result ≡ old.result
  pub manifest_kept :
      is_exploring old.phase ≡ false
      → (new_progress.frozen_candidates ≡ old.frozen_candidates)
        × (new_progress.candidate_usage ≡ old.candidate_usage)
        × (new_progress.coverage ≡ old.coverage)
        × (new_progress.candidate_limitations ≡ old.candidate_limitations)

pub IsLater-refl : (p : ReviewProgress) → IsLater p p
IsLater-refl p = record {
  advances = omega arith;
  result_kept = λ _. refl;
  manifest_kept = λ _. (refl, refl, refl, refl);
}

complete_after :
    (a b : ProgressPhase) → order a ≤ order b → is_complete a ≡ true → is_complete b ≡ true
complete_after a exploring h c = ground arith
complete_after a verifying h c = ground arith
complete_after a complete h c = refl

explored_after :
    (a b : ProgressPhase) → order a ≤ order b → is_exploring a ≡ false → is_exploring b ≡ false
explored_after a exploring h c = ground arith
explored_after a verifying h c = refl
explored_after a complete h c = refl

pub IsLater-trans : (p q r : ReviewProgress) → IsLater p q → IsLater q r → IsLater p r
IsLater-trans p q r h k =
    let a = h.advances in
    let b = k.advances in
    record {
      advances = omega arith;
      result_kept =
          λ c. k.result_kept (complete_after p.phase q.phase h.advances c) ∙ h.result_kept c;
      manifest_kept = λ c.
          let x = h.manifest_kept c in
          let y = k.manifest_kept (explored_after p.phase q.phase h.advances c) in
          (y.0 ∙ x.0, y.1 ∙ x.1, y.2 ∙ x.2, y.3 ∙ x.3);
    }

same_option-eq : (a b : Option ℕ) → same_option a b ≡ true → b ≡ a
same_option-eq none none h = refl
same_option-eq (some a) (some b) h = let e : b ≡ a = ground arith in ap some e
same_option-eq none (some b) h = cc
same_option-eq (some a) none h = cc

check_progress-IsLater :
    (p : ReviewProgress) (row : ProgressRow) (u : Unit {0})
    → check_progress p (some row) ≡ ok u
    → IsLater row.payload p
unfolding check_progress
check_progress-IsLater p row u h =
    let old = row.payload in
    record {
      advances = ground arith;
      result_kept = λ c. same_option-eq old.result p.result (ground arith);
      manifest_kept = λ c. (ground arith, ground arith, ground arith, ground arith);
    }

-- A row is kept, with a payload that may follow.
abbrev pub Continues : ℕ → Name → ReviewProgress → Ledger → Type 0
Continues i key old t =
    (row : ProgressRow) × (find_progress i key t ≡ some row) × IsLater old row.payload

saved-here :
    (now : ℕ) (b : Backend) (p : ReviewProgress) (t : Ledger) (row : ProgressRow) (u : Unit {0})
    → find_progress b.job_id p.input_key t ≡ some row
    → check_progress p (some row) ≡ ok u
    → Continues b.job_id p.input_key row.payload (written_progress now b p t)
unfolding find_progress upsert_progress
saved-here now b p t row u found h =
    let i = b.job_id in
    let key = p.input_key in
    let new_row = progress_row now b p in
    let passes : is_row i key new_row ≡ true = rw (==_refl i, ==_refl key) refl in
    let e = find?-replace_first (is_row i key) new_row t.progress found passes in
    (
      new_row,
      subst
          (λ (o : Option ProgressRow).
            find? (is_row i key) (upsert_progress new_row o t.progress) ≡ some new_row)
          (sym found) e,
      check_progress-IsLater p row u h,
    )

saved-elsewhere :
    (i : ℕ) (key : Name) (now : ℕ) (b : Backend) (p : ReviewProgress) (t : Ledger)
    (o : Option ProgressRow)
    → (b.job_id == i && p.input_key == key) ≡ false
    → find? (is_row i key) (upsert_progress (progress_row now b p) o t.progress)
      ≡ find? (is_row i key) t.progress
unfolding upsert_progress find?
saved-elsewhere i key now b p t none n = rw n refl
saved-elsewhere i key now b p t (some old) n =
    find?-replace_other (is_row i key) (is_row b.job_id p.input_key) (progress_row now b p)
      t.progress (λ x h. ground arith) n

pub save_progress-Continues :
    (now : ℕ) (b : Backend) (p : ReviewProgress) (t t' : Ledger) (i : ℕ) (key : Name)
    (row : ProgressRow)
    → save_progress now b p t ≡ ok t'
    → find_progress i key t ≡ some row
    → Continues i key row.payload t'
unfolding save_progress
save_progress-Continues now b p t t' i key row h found =
    let (u, e, f) = >>=-eq-ok (guard_lease now b.worker_id (find_job b.job_id t.db)) _ h in
    let (v, g, k) = >>=-eq-ok (check_progress p (find_progress b.job_id p.input_key t)) _ f in
    let s : written_progress now b p t ≡ t' = cc in
    subst (Continues i key row.payload) s (elim (Bool-cases (b.job_id == i && p.input_key == key)) [
      | inl c ↦
          let ei : i ≡ b.job_id = ground arith in
          let ek : key ≡ p.input_key = ground arith in
          let there = subst₂ (λ (x y : ℕ). find_progress x y t ≡ some row) ei ek found in
          subst₂ (λ (x y : ℕ). Continues x y row.payload (written_progress now b p t)) (sym ei)
            (sym ek)
            (saved-here now b p t row v there
              (subst (λ (o : Option ProgressRow). check_progress p o ≡ ok v) there g))
      | inr n ↦ elsewhere n
    ])
  where
    elsewhere :
        (b.job_id == i && p.input_key == key) ≡ false
        → Continues i key row.payload (written_progress now b p t)
    elsewhere n = (
      row,
      saved-elsewhere i key now b p t (find_progress b.job_id p.input_key t) n ∙ found,
      IsLater-refl row.payload,
    )
