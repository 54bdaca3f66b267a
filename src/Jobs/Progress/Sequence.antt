-- ===== src/Jobs/Progress/Sequence.antt =====
-- Any sequence of transactions of src/pe_review_agent/jobs/progress.py, by any workers, with whatever else
-- happens to the store's tables, and the pruning of what was saved.
use pe_review_agent.Domain.{Name}
use pe_review_agent.Jobs.Progress.{
  Backend, Invocation, InvocationRow, Ledger, ProgressError, ProgressRow, ReviewProgress,
  check_attempt, check_progress, find_invocation, find_progress, guard_lease, invocation_row,
  is_invocation, is_row, prune_progress, record_in_attempt, record_invocation, save_progress,
}
use pe_review_agent.Jobs.Progress.Audit.{
  Audits, IsAudited-refl, IsAudited-trans, record_invocation-Audits,
}
use pe_review_agent.Jobs.Progress.Kept.{
  Continues, IsLater-refl, IsLater-trans, save_progress-Continues,
}
use pe_review_agent.Jobs.Progress.Pruned.{IsPrunable, prune_progress-found}
use pe_review_agent.Jobs.Rows.{Attempt, Db}
use pe_review_agent.Jobs.Store.{find_job}
use pe_review_agent.Prelude.{
  List, Option, [], ap, find?, inl, inr, none, refl, some, ℕ, ◌==◌, ◌∙◌, ◌∷◌, ◌≡◌, ◌⊎◌,
}
use pe_review_agent.Prelude.Result.{>>=-eq-ok, Result, err, ok}

pub data LedgerEvent : Type 0 where
  saves : ℕ → Backend → ReviewProgress → LedgerEvent
  records : ℕ → Backend → Invocation → LedgerEvent
  store_changes : (Db → Db) → LedgerEvent
  prunes : ℕ → ℕ → LedgerEvent

-- A transaction that raises an error is rolled back.
abbrev pub rolled_back : Ledger → Result ProgressError Ledger → Ledger
rolled_back t (err e) = t
rolled_back t (ok t') = t'

unfoldable pub happen : LedgerEvent → Ledger → Ledger
unfolding save_progress record_invocation prune_progress
happen (saves now b p) t = rolled_back t (save_progress now b p t)
happen (records now b v) t = rolled_back t (record_invocation now b v t)
happen (store_changes f) t = record t { db = f t.db }
happen (prunes now retention_days) t = prune_progress now retention_days t

unfoldable pub happen_all : List LedgerEvent → Ledger → Ledger
unfolding happen
happen_all [] t = t
happen_all (e ∷ es) t = happen_all es (happen e t)

-- `record_invocation` leaves the saved progress alone, and `save` the audit.
invocations_kept :
    (now : ℕ) (b : Backend) (p : ReviewProgress) (t t' : Ledger)
    → save_progress now b p t ≡ ok t'
    → t'.invocations ≡ t.invocations
unfolding save_progress
invocations_kept now b p t t' h =
    let (u, e, f) = >>=-eq-ok (guard_lease now b.worker_id (find_job b.job_id t.db)) _ h in
    let (v, g, k) = >>=-eq-ok (check_progress p (find_progress b.job_id p.input_key t)) _ f in cc

progress_kept_in :
    (b : Backend) (v : Invocation) (t t' : Ledger) (o : Option ℕ)
    → record_in_attempt b v t o ≡ ok t'
    → t'.progress ≡ t.progress
unfolding record_in_attempt
progress_kept_in b v t t' none h = cc
progress_kept_in b v t t' (some attempt) h =
    let (u, e, f) =
      >>=-eq-ok (check_attempt b (find? (λ (a : Attempt). a.id == attempt) t.db.attempts)) _ h in
    let (r, g, k) = >>=-eq-ok (invocation_row b attempt v (find_invocation v.id t)) _ f in cc

progress_kept :
    (now : ℕ) (b : Backend) (v : Invocation) (t t' : Ledger)
    → record_invocation now b v t ≡ ok t'
    → t'.progress ≡ t.progress
unfolding record_invocation
progress_kept now b v t t' h =
    let (u, e, f) = >>=-eq-ok (guard_lease now b.worker_id (find_job b.job_id t.db)) _ h in
    progress_kept_in b v t t' b.attempt_id f

after_save :
    (now : ℕ) (b : Backend) (p : ReviewProgress) (t : Ledger) (i : ℕ) (key : Name)
    (row : ProgressRow) (o : Result ProgressError Ledger)
    → save_progress now b p t ≡ o
    → find_progress i key t ≡ some row
    → Continues i key row.payload (rolled_back t o)
after_save now b p t i key row (err x) e found = (row, found, IsLater-refl row.payload)
after_save now b p t i key row (ok t') e found =
    save_progress-Continues now b p t t' i key row e found

after_record :
    (now : ℕ) (b : Backend) (v : Invocation) (t : Ledger) (i : ℕ) (key : Name) (row : ProgressRow)
    (o : Result ProgressError Ledger)
    → record_invocation now b v t ≡ o
    → find_progress i key t ≡ some row
    → Continues i key row.payload (rolled_back t o)
unfolding find_progress
after_record now b v t i key row (err x) e found = (row, found, IsLater-refl row.payload)
after_record now b v t i key row (ok t') e found = (
  row,
  ap (find? (is_row i key)) (progress_kept now b v t t' e) ∙ found,
  IsLater-refl row.payload,
)

-- The event prunes the row that is saved under the key.
abbrev pub Prunes : ℕ → Name → LedgerEvent → Ledger → Type 0
Prunes i key (prunes now retention_days) t =
    (row : ProgressRow) × (find_progress i key t ≡ some row)
    × IsPrunable now retention_days t.db.jobs row
Prunes i key _ t = ⊥

-- One of the events, where its turn comes, prunes the row that is saved under the key.
abbrev pub PrunedIn : ℕ → Name → List LedgerEvent → Ledger → Type 0
PrunedIn i key [] t = ⊥
PrunedIn i key (e ∷ es) t = Prunes i key e t ⊎ PrunedIn i key es (happen e t)

happen-Continues :
    (event : LedgerEvent) (t : Ledger) (i : ℕ) (key : Name) (row : ProgressRow)
    → find_progress i key t ≡ some row
    → Continues i key row.payload (happen event t) ⊎ Prunes i key event t
unfolding happen find_progress
happen-Continues (saves now b p) t i key row found =
    inl (after_save now b p t i key row (save_progress now b p t) refl found)
happen-Continues (records now b v) t i key row found =
    inl (after_record now b v t i key row (record_invocation now b v t) refl found)
happen-Continues (store_changes f) t i key row found = inl (row, found, IsLater-refl row.payload)
happen-Continues (prunes now days) t i key row found =
    elim (prune_progress-found now days t i key row found) [
      | inl kept ↦ inl (row, kept, IsLater-refl row.payload)
      | inr gone ↦ inr (row, found, gone)
    ]

-- A progress that was saved is lost by pruning only. After any sequence of transactions a progress is
-- there under its key whose phase is no earlier; a completed result is the same, and so is the manifest of
-- candidates once the candidate phase is over. Otherwise one of the transactions pruned the row of that
-- key, at a time when its job was DONE or SUPERSEDED and the row had been saved no later than the
-- retention before.
pub happen_all-Continues :
    (events : List LedgerEvent) (t : Ledger) (i : ℕ) (key : Name) (row : ProgressRow)
    → find_progress i key t ≡ some row
    → Continues i key row.payload (happen_all events t) ⊎ PrunedIn i key events t
unfolding happen_all
happen_all-Continues [] t i key row found = inl (row, found, IsLater-refl row.payload)
happen_all-Continues (e ∷ es) t i key row found = elim (happen-Continues e t i key row found) [
  | inl (next_row, there, later) ↦
      elim (happen_all-Continues es (happen e t) i key next_row there) [
        | inl (last_row, here, latest) ↦ inl (
          last_row,
          here,
          IsLater-trans row.payload next_row.payload last_row.payload later latest,
        )
        | inr gone ↦ inr (inr gone)
      ]
  | inr gone ↦ inr (inl gone)
]

audited_save :
    (now : ℕ) (b : Backend) (p : ReviewProgress) (t : Ledger) (i : ℕ) (row : InvocationRow)
    (o : Result ProgressError Ledger)
    → save_progress now b p t ≡ o
    → find_invocation i t ≡ some row
    → Audits i row (rolled_back t o)
unfolding find_invocation
audited_save now b p t i row (err x) e found = (row, found, IsAudited-refl row)
audited_save now b p t i row (ok t') e found = (
  row,
  ap (find? (is_invocation i)) (invocations_kept now b p t t' e) ∙ found,
  IsAudited-refl row,
)

audited_record :
    (now : ℕ) (b : Backend) (v : Invocation) (t : Ledger) (i : ℕ) (row : InvocationRow)
    (o : Result ProgressError Ledger)
    → record_invocation now b v t ≡ o
    → find_invocation i t ≡ some row
    → Audits i row (rolled_back t o)
audited_record now b v t i row (err x) e found = (row, found, IsAudited-refl row)
audited_record now b v t i row (ok t') e found = record_invocation-Audits now b v t t' i row e found

happen-Audits :
    (event : LedgerEvent) (t : Ledger) (i : ℕ) (row : InvocationRow)
    → find_invocation i t ≡ some row
    → Audits i row (happen event t)
unfolding happen find_invocation prune_progress
happen-Audits (saves now b p) t i row found =
    audited_save now b p t i row (save_progress now b p t) refl found
happen-Audits (records now b v) t i row found =
    audited_record now b v t i row (record_invocation now b v t) refl found
happen-Audits (store_changes f) t i row found = (row, found, IsAudited-refl row)
happen-Audits (prunes now days) t i row found = (row, found, IsAudited-refl row)

-- An invocation that was recorded is not lost: after any sequence of transactions a row is there under its
-- id, of the same job, attempt and work, and a row that had finished is unchanged.
pub happen_all-Audits :
    (events : List LedgerEvent) (t : Ledger) (i : ℕ) (row : InvocationRow)
    → find_invocation i t ≡ some row
    → Audits i row (happen_all events t)
unfolding happen_all
happen_all-Audits [] t i row found = (row, found, IsAudited-refl row)
happen_all-Audits (e ∷ es) t i row found =
    let (next_row, there, audited) = happen-Audits e t i row found in
    let (last_row, here, latest) = happen_all-Audits es (happen e t) i next_row there in
    (last_row, here, IsAudited-trans row next_row last_row audited latest)
