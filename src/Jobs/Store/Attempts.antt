-- ===== src/Jobs/Store/Attempts.antt =====
-- src/pe_review_agent/jobs/store.py: the audit of attempts, from which retry budgets are counted.
use pe_review_agent.Domain.{AttemptStage, Name, stage_eq}
use pe_review_agent.Jobs.Rows.{
  Attempt, Db, ErrorClass, ErrorValue, Job, Tx, attempt_missing_or_finished, error_class_of,
  error_text, not_leased, provider_unavailable_error,
}
use pe_review_agent.Jobs.Store.{find_job}
use pe_review_agent.Prelude.{
  Bool, List, Option, [], count_where, false, find?, if◌then◌else◌, is_none, is_some_eq, ltb, map,
  none, not, some, suc, true, update_where, ℕ, ◌&&◌, ◌+◌, ◌==◌, ◌||◌, ◌∷◌,
}
use pe_review_agent.Prelude.Result.{err, ok}

-- The WHERE clause of `start_attempt`.
abbrev pub may_start : ℕ → Name → ℕ → Job → Bool
may_start now worker i job =
    job.id == i
    && is_some_eq job.lease_owner worker
    && elim job.lease_expires_at [ none ↦ false | some t ↦ ltb now t ]

-- The row that `start_attempt` inserts.
abbrev pub new_attempt : ℕ → ℕ → AttemptStage → Name → Job → Attempt
new_attempt a i stage worker job = record {
  id = a;
  job_id = i;
  attempt_number = job.attempt_count + 1;
  stage = stage;
  worker_id = worker;
  finished_at = none;
  success = none;
  retryable = none;
  error_class = none;
  error_message = none;
}

abbrev pub one_more : Job → Job
one_more j = record j { attempt_count = j.attempt_count + 1 }

-- What `start_attempt` does with the outcome of its SELECT.
unfoldable pub start_row : ℕ → ℕ → AttemptStage → Name → Option Job → Tx ℕ
start_row now i stage worker none db = err not_leased
start_row now i stage worker (some job) db = ok (
  record db {
    jobs = update_where (may_start now worker i) one_more db.jobs;
    attempts = new_attempt db.next_id i stage worker job ∷ db.attempts;
    next_id = suc db.next_id;
  },
  db.next_id,
)

-- `JobStore.start_attempt`: the id of the new attempt.
unfoldable pub start_attempt : ℕ → ℕ → AttemptStage → Name → Tx ℕ
unfolding start_row
start_attempt now i stage worker db =
    start_row now i stage worker (find? (may_start now worker i) db.jobs) db

-- The WHERE clause of `finish_attempt`.
abbrev pub is_open_attempt : ℕ → Attempt → Bool
is_open_attempt a att = att.id == a && is_none att.finished_at

-- `JobStore.finish_attempt`
unfoldable pub finish_attempt : ℕ → ℕ → Bool → Option Bool → Option ErrorValue → Tx (Unit {0})
finish_attempt now a success retryable error db =
    if count_where (is_open_attempt a) db.attempts == 1
    then ok (
      record db {
        attempts =
            update_where (is_open_attempt a)
              (λ att. record att {
                finished_at = some now;
                success = some success;
                retryable = retryable;
                error_class = elim error [ none ↦ none | some e ↦ error_class_of e ];
                error_message = elim error [ none ↦ none | some e ↦ some (error_text e) ];
              })
              db.attempts;
      },
      tt,
    )
    else err attempt_missing_or_finished

abbrev pub is_provider_unavailable : Option ErrorClass → Bool
is_provider_unavailable (some provider_unavailable_error) = true
is_provider_unavailable _ = false

abbrev is_false : Option Bool → Bool
is_false (some false) = true
is_false _ = false

-- An attempt of the stage in the job's current retry epoch.
abbrev pub in_epoch : Job → AttemptStage → Attempt → Bool
in_epoch job stage att =
    att.job_id == job.id
    && stage_eq att.stage stage
    && ltb job.retry_epoch_start_attempt att.attempt_number

-- The WHERE clause of `_count_consumed_retry_attempts_select`, for the job joined.
unfoldable pub is_consumed : Job → AttemptStage → Attempt → Bool
is_consumed job stage att =
    in_epoch job stage att
    && (is_false att.success || is_none att.finished_at)
    && not (is_provider_unavailable att.error_class)

-- The join with the job, and the count.
unfoldable pub consumed_of : AttemptStage → Db → Option Job → ℕ
unfolding is_consumed
consumed_of stage db none = 0
consumed_of stage db (some job) = count_where (is_consumed job stage) db.attempts

-- `JobStore.count_consumed_retry_attempts`
unfoldable pub count_consumed_retry_attempts : ℕ → AttemptStage → Db → ℕ
unfolding find_job consumed_of
count_consumed_retry_attempts i stage db = consumed_of stage db (find_job i db)

-- `JobStore.count_attempts`
unfoldable pub count_attempts : ℕ → AttemptStage → Db → ℕ
count_attempts i stage db =
    count_where (λ att. att.job_id == i && stage_eq att.stage stage) db.attempts

pub record ProviderRetryStatus : Type 0 where
  pub count : ℕ
  pub first_failed_at : Option ℕ
  pub last_failed_at : Option ℕ

-- The loop of `provider_retry_status` over (error_class, finished_at), newest attempt first.
unfoldable pub trailing_streak :
    ProviderRetryStatus → List (Option ErrorClass × Option ℕ) → ProviderRetryStatus
trailing_streak acc [] = acc
trailing_streak acc ((c, none) ∷ rows) = acc
trailing_streak acc ((c, some t) ∷ rows) =
    let go =
      trailing_streak
        (record {
          count = acc.count + 1;
          first_failed_at = some t;
          last_failed_at = elim acc.last_failed_at [ none ↦ some t | some l ↦ some l ];
        })
        rows in
    if is_provider_unavailable c then go else acc

-- The SELECT of `provider_retry_status`: the attempts in the order of their numbers, newest first.
unfoldable pub insert_desc : Attempt → List Attempt → List Attempt
insert_desc a [] = a ∷ []
insert_desc a (b ∷ bs) =
    if ltb a.attempt_number b.attempt_number then b ∷ insert_desc a bs else a ∷ b ∷ bs

unfoldable pub epoch_rows : (Attempt → Bool) → List Attempt → List Attempt
unfolding insert_desc
epoch_rows p [] = []
epoch_rows p (a ∷ attempts) =
    let rest = epoch_rows p attempts in if p a then insert_desc a rest else rest

abbrev pub no_streak : ProviderRetryStatus
no_streak = record { count = 0; first_failed_at = none; last_failed_at = none }

-- `JobStore.provider_retry_status`
unfoldable pub provider_retry_status : ℕ → AttemptStage → Db → ProviderRetryStatus
unfolding find_job epoch_rows trailing_streak
provider_retry_status i stage db = elim (find_job i db) [
  | none ↦ no_streak
  | some job ↦
      trailing_streak no_streak
        (map (λ a. (a.error_class, a.finished_at)) (epoch_rows (in_epoch job stage) db.attempts))
]
