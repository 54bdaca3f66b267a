-- ===== src/Jobs/Progress.antt =====
-- PostgresProgressBackend of src/pe_review_agent/jobs/progress.py: the saved progress of a review and the
-- audit of its invocations, each written in a transaction that holds the job's lease. What the code
-- only compares is a name. `totals` and `legacy` are left out. One tick is one second. With it stands the
-- part of `JobStore.prune_review_recovery_cache` of src/pe_review_agent/jobs/store.py that deletes saved
-- progress; the chunk checkpoints it deletes as well and the count it returns are left out.
pub mod Kept
pub mod Pruned
pub mod Audit
pub mod Sequence
use mathlib.Core.Option
use pe_review_agent.Domain.{JobState, Name, done, state_eq, superseded}
use pe_review_agent.Jobs.Rows.{Attempt, Db, Job, StoreError, key_error}
use pe_review_agent.Jobs.Store.{find_job, require_live_lease}
use pe_review_agent.Prelude.{
  Bool, List, Option, [], any, false, find?, if◌then◌else◌, is_none, leb, ltb, none, not,
  replace_first, some, true, ℕ, ◌&&◌, ◌*◌, ◌+◌, ◌==◌, ◌||◌, ◌∷◌,
}
use pe_review_agent.Prelude.Result.{Result, err, guard, ok, ◌>>=◌, ◌>>◌}

pub data ProgressPhase : Type 0 where
  exploring verifying complete : ProgressPhase

-- ReviewProgress of src/pe_review_agent/review/progress.py; the fields that `save` does not read are one
-- name.
pub record ReviewProgress : Type 0 where
  pub input_key : Name
  pub phase : ProgressPhase
  pub frozen_candidates : Name
  pub coverage : Name
  pub candidate_usage : Name
  pub candidate_limitations : Name
  pub result : Option Name
  pub remaining_fields : Name

-- A row of review_progress.
pub record ProgressRow : Type 0 where
  pub job_id : ℕ
  pub input_key : Name
  pub payload : ReviewProgress
  pub updated_at : ℕ

pub data InvocationStatus : Type 0 where
  started completed failed : InvocationStatus

-- Invocation: what it is, and how it came out.
pub record InvocationIdentity : Type 0 where
  pub input_key : Name
  pub phase : Name
  pub work_key : Name
  pub kind : Name

pub record InvocationOutcome : Type 0 where
  pub status : InvocationStatus
  pub input_tokens : Option ℕ
  pub output_tokens : Option ℕ
  pub error : Option ℕ

pub record Invocation : Type 0 where
  pub id : ℕ
  pub identity : InvocationIdentity
  pub outcome : InvocationOutcome

-- A row of review_invocations.
pub record InvocationRow : Type 0 where
  pub job_id : ℕ
  pub attempt_id : ℕ
  pub invocation : Invocation

-- The store's tables with the two of the progress.
pub record Ledger : Type 0 where
  pub db : Db
  pub progress : List ProgressRow
  pub invocations : List InvocationRow

-- What the TransientError of each operation wraps.
pub data ProgressError : Type 0 where
  store_error : StoreError → ProgressError
  moves_back result_is_immutable manifest_is_immutable : ProgressError
  no_active_attempt not_this_attempt recorded_late identity_changed already_finished : ProgressError

-- The keyword arguments of the backend.
pub record Backend : Type 0 where
  pub job_id : ℕ
  pub worker_id : Name
  pub attempt_id : Option ℕ

-- `_guard` on the job that it selected.
unfoldable pub guard_lease : ℕ → Name → Option Job → Result ProgressError (Unit {0})
unfolding require_live_lease
guard_lease now worker none = err (store_error key_error)
guard_lease now worker (some job) = elim (require_live_lease now job worker) [
  | err e ↦ err (store_error e)
  | ok u ↦ ok tt
]

-- `order`
abbrev pub order : ProgressPhase → ℕ
order exploring = 0
order verifying = 1
order complete = 2

abbrev pub is_complete : ProgressPhase → Bool
is_complete complete = true
is_complete _ = false

abbrev pub is_exploring : ProgressPhase → Bool
is_exploring exploring = true
is_exploring _ = false

abbrev pub same_option : Option ℕ → Option ℕ → Bool
same_option none none = true
same_option (some a) (some b) = a == b
same_option _ _ = false

abbrev pub same_manifest : ReviewProgress → ReviewProgress → Bool
same_manifest old p =
    old.frozen_candidates == p.frozen_candidates
    && (old.candidate_usage == p.candidate_usage
        && (old.coverage == p.coverage && old.candidate_limitations == p.candidate_limitations))

-- The checks of `save` against the row that is there.
unfoldable pub check_progress :
    ReviewProgress → Option ProgressRow → Result ProgressError (Unit {0})
check_progress p none = ok tt
check_progress p (some row) =
    let old = row.payload in
    if ltb (order p.phase) (order old.phase)
    then err moves_back
    else (if is_complete old.phase && not (same_option old.result p.result)
        then err result_is_immutable
        else (if not (is_exploring old.phase) && not (same_manifest old p)
            then err manifest_is_immutable
            else ok tt))

abbrev pub is_row : ℕ → Name → ProgressRow → Bool
is_row i key row = row.job_id == i && row.input_key == key

-- `session.get(ReviewProgressRow, …)`
unfoldable pub find_progress : ℕ → Name → Ledger → Option ProgressRow
unfolding find?
find_progress i key t = find? (is_row i key) t.progress

-- INSERT … ON CONFLICT DO UPDATE
unfoldable pub upsert_progress :
    ProgressRow → Option ProgressRow → List ProgressRow → List ProgressRow
unfolding replace_first
upsert_progress row none rows = row ∷ rows
upsert_progress row (some old) rows = replace_first (is_row row.job_id row.input_key) row rows

abbrev pub progress_row : ℕ → Backend → ReviewProgress → ProgressRow
progress_row now b p = record {
  job_id = b.job_id;
  input_key = p.input_key;
  payload = p;
  updated_at = now;
}

abbrev pub written_progress : ℕ → Backend → ReviewProgress → Ledger → Ledger
written_progress now b p t = record t {
  progress =
      upsert_progress (progress_row now b p) (find_progress b.job_id p.input_key t) t.progress;
}

-- `save`
unfoldable pub save_progress : ℕ → Backend → ReviewProgress → Ledger → Result ProgressError Ledger
unfolding guard_lease check_progress find_progress upsert_progress find_job
save_progress now b p t = do
  _ ← guard_lease now b.worker_id (find_job b.job_id t.db)
  _ ← check_progress p (find_progress b.job_id p.input_key t)
  ok (written_progress now b p t)

-- `Job.state.in_([DONE, SUPERSEDED])`
abbrev pub is_pruned_state : JobState → Bool
is_pruned_state state = state_eq state done || state_eq state superseded

-- The WHERE of the DELETE on review_progress.
abbrev pub is_prunable : ℕ → ℕ → List Job → ProgressRow → Bool
is_prunable now retention_days jobs row =
    any (λ j. j.id == row.job_id && is_pruned_state j.state) jobs
    && leb (row.updated_at + retention_days * 86400) now

-- DELETE … WHERE
unfoldable pub delete_where {ℓ} : {A : Type ℓ} → (A → Bool) → List A → List A
delete_where p [] = []
delete_where p (x ∷ xs) = let rest = delete_where p xs in if p x then rest else x ∷ rest

-- `prune_review_recovery_cache`
unfoldable pub prune_progress : ℕ → ℕ → Ledger → Ledger
unfolding delete_where any
prune_progress now retention_days t = record t {
  progress = delete_where (is_prunable now retention_days t.db.jobs) t.progress;
}

-- `load`
unfoldable pub load_progress : Backend → Name → Ledger → Option ReviewProgress
unfolding find_progress
load_progress b key t = Option.map (λ (r : ProgressRow). r.payload) (find_progress b.job_id key t)

-- The attempt that a call stands in.
unfoldable pub check_attempt : Backend → Option Attempt → Result ProgressError (Unit {0})
check_attempt b none = err not_this_attempt
check_attempt b (some a) =
    guard (a.job_id == b.job_id && (a.worker_id == b.worker_id && is_none a.finished_at))
      not_this_attempt

abbrev pub same_work_identity : InvocationIdentity → InvocationIdentity → Bool
same_work_identity a b =
    a.input_key == b.input_key
    && (a.phase == b.phase && (a.work_key == b.work_key && a.kind == b.kind))

abbrev pub is_started : InvocationStatus → Bool
is_started started = true
is_started _ = false

abbrev pub same_status : InvocationStatus → InvocationStatus → Bool
same_status started started = true
same_status completed completed = true
same_status failed failed = true
same_status _ _ = false

abbrev pub same_outcome : InvocationOutcome → InvocationOutcome → Bool
same_outcome a b =
    same_status a.status b.status
    && (same_option a.input_tokens b.input_tokens
        && (same_option a.output_tokens b.output_tokens && same_option a.error b.error))

-- What becomes of the row that is there, or of none.
unfoldable pub invocation_row :
    Backend → ℕ → Invocation → Option InvocationRow → Result ProgressError InvocationRow
invocation_row b attempt v none =
    if is_started v.outcome.status
    then ok (record { job_id = b.job_id; attempt_id = attempt; invocation = v })
    else err recorded_late
invocation_row b attempt v (some row) =
    let old = row.invocation in
    if not (row.job_id == b.job_id)
      || (not (row.attempt_id == attempt) || not (same_work_identity old.identity v.identity))
    then err identity_changed
    else (if is_started old.outcome.status
        then ok (record row { invocation = record old { outcome = v.outcome } })
        else (if same_outcome old.outcome v.outcome then ok row else err already_finished))

abbrev pub is_invocation : ℕ → InvocationRow → Bool
is_invocation i row = row.invocation.id == i

unfoldable pub find_invocation : ℕ → Ledger → Option InvocationRow
unfolding find?
find_invocation i t = find? (is_invocation i) t.invocations

unfoldable pub put_invocation :
    ℕ → InvocationRow → Option InvocationRow → List InvocationRow → List InvocationRow
unfolding replace_first
put_invocation i row none rows = row ∷ rows
put_invocation i row (some old) rows = replace_first (is_invocation i) row rows

-- The part of `record_invocation` that follows the test of `self.attempt_id`.
unfoldable pub record_in_attempt :
    Backend → Invocation → Ledger → Option ℕ → Result ProgressError Ledger
unfolding check_attempt invocation_row find_invocation put_invocation find?
record_in_attempt b v t none = err no_active_attempt
record_in_attempt b v t (some attempt) = do
  _ ← check_attempt b (find? (λ (a : Attempt). a.id == attempt) t.db.attempts)
  row ← invocation_row b attempt v (find_invocation v.id t)
  ok (record t { invocations = put_invocation v.id row (find_invocation v.id t) t.invocations })

-- `record_invocation`
unfoldable pub record_invocation : ℕ → Backend → Invocation → Ledger → Result ProgressError Ledger
unfolding guard_lease record_in_attempt find_job
record_invocation now b v t = do
  _ ← guard_lease now b.worker_id (find_job b.job_id t.db)
  record_in_attempt b v t b.attempt_id
