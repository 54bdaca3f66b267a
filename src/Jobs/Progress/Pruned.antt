-- ===== src/Jobs/Progress/Pruned.antt =====
-- What pruning, `JobStore.prune_review_recovery_cache` of src/pe_review_agent/jobs/store.py, takes away
-- of the saved progress.
use pe_review_agent.Domain.{
  JobState, Name, done, failed_permanent, failed_transient, fetching, publishing, ready_to_publish,
  received, retry_wait, reviewing, skipped_scope, superseded, validating,
}
use pe_review_agent.Jobs.Progress.{
  Ledger, ProgressRow, delete_where, find_progress, is_prunable, is_pruned_state, is_row,
  prune_progress,
}
use pe_review_agent.Jobs.Rows.{Job}
use pe_review_agent.Prelude.{
  Bool, Bool-cases, Elem, List, [], any, arith, false, find?, inl, inr, none_ne, refl, some,
  some_inj, subst, sym, true, ℕ, ◌&&◌, ◌*◌, ◌+◌, ◌==◌, ◌∷◌, ◌≡◌, ◌≤◌, ◌⊎◌,
}

-- A row that pruning may delete: its job has ended, and it is older than the retention.
pub record IsPrunable (now retention_days : ℕ) (jobs : List Job) (row : ProgressRow) : Type 0 where
  pub owner : Job
  pub stored : Elem owner jobs
  pub owned : owner.id ≡ row.job_id
  pub ended : (owner.state ≡ done) ⊎ (owner.state ≡ superseded)
  pub retained : row.updated_at + retention_days * 86400 ≤ now

Elem-any :
    {A : Type 0} (p : A → Bool) (xs : List A) → any p xs ≡ true → (x : A) × Elem x xs × (p x ≡ true)
unfolding any
Elem-any p [] h = absurd (cc h)
Elem-any p (x ∷ xs) h = elim (Bool-cases (p x)) [
  | inl t ↦ (x, inl refl, t)
  | inr f ↦ let (y, m, e) = Elem-any p xs (rw f at h) in (y, inr m, e)
]

ended_states :
    (state : JobState) → is_pruned_state state ≡ true → (state ≡ done) ⊎ (state ≡ superseded)
ended_states done h = inl refl
ended_states superseded h = inr refl
ended_states received h = absurd (cc h)
ended_states fetching h = absurd (cc h)
ended_states reviewing h = absurd (cc h)
ended_states validating h = absurd (cc h)
ended_states ready_to_publish h = absurd (cc h)
ended_states publishing h = absurd (cc h)
ended_states retry_wait h = absurd (cc h)
ended_states failed_transient h = absurd (cc h)
ended_states failed_permanent h = absurd (cc h)
ended_states skipped_scope h = absurd (cc h)

is_prunable-IsPrunable :
    (now retention_days : ℕ) (jobs : List Job) (row : ProgressRow)
    → is_prunable now retention_days jobs row ≡ true
    → IsPrunable now retention_days jobs row
is_prunable-IsPrunable now retention_days jobs row h =
    let (owner, stored, e) =
      Elem-any (λ (j : Job). j.id == row.job_id && is_pruned_state j.state) jobs (ground arith) in
    record {
      owner = owner;
      stored = stored;
      owned = ground arith;
      ended = ended_states owner.state (ground arith);
      retained = ground arith;
    }

find?-delete_where :
    {A : Type 0} (p d : A → Bool) (xs : List A) {x : A}
    → find? p xs ≡ some x
    → d x ≡ false
    → find? p (delete_where d xs) ≡ some x
unfolding find? delete_where
find?-delete_where p d [] e n = none_ne e
find?-delete_where p d (y ∷ ys) e n = elim (Bool-cases (p y)) [
  | inl t ↦
      let same = some_inj (rw t at e) in
      let kept = subst (λ z. d z ≡ false) (sym same) n in
      let first_found = rw t at e in rw (kept, t) first_found
  | inr f ↦ elim (Bool-cases (d y)) [
    | inl g ↦ rw g (find?-delete_where p d ys (rw f at e) n)
    | inr g ↦ rw (g, f) (find?-delete_where p d ys (rw f at e) n)
  ]
]

-- Pruning leaves the row of a key, or may delete it.
pub prune_progress-found :
    (now retention_days : ℕ) (t : Ledger) (i : ℕ) (key : Name) (row : ProgressRow)
    → find_progress i key t ≡ some row
    → (find_progress i key (prune_progress now retention_days t) ≡ some row)
      ⊎ IsPrunable now retention_days t.db.jobs row
unfolding prune_progress find_progress
prune_progress-found now retention_days t i key row found =
    let d = is_prunable now retention_days t.db.jobs in
    elim (Bool-cases (d row)) [
      | inl h ↦ inr (is_prunable-IsPrunable now retention_days t.db.jobs row h)
      | inr n ↦ inl (find?-delete_where (is_row i key) d t.progress found n)
    ]
