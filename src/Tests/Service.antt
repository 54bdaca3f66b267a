-- ===== src/Tests/Service.antt =====
-- The theorems on the retries and on the vote publisher, on concrete values.
use pe_review_agent.Domain.{Name, fetch, review}
use pe_review_agent.Jobs.History.{Step}
use pe_review_agent.Jobs.Rows.{
  Db, Job, ReviewVote, exception, provider_unavailable_error, transient_error,
}
use pe_review_agent.Jobs.Store.{find_job}
use pe_review_agent.Jobs.Store.Attempts.{
  count_consumed_retry_attempts, finish_attempt, provider_retry_status, start_attempt, start_row,
}
use pe_review_agent.Jobs.Store.Enqueue.{enqueue, new_job}
use pe_review_agent.Jobs.Store.Leases.{claim_next}
use pe_review_agent.Jobs.Store.Lifecycle.{
  save_review_result_and_mark_ready, schedule_retry, transition,
}
use pe_review_agent.Jobs.Store.Publications.{begin_publication}
use pe_review_agent.Jobs.Votes.{dispatch, ensure, find_vote, retry}
use pe_review_agent.Prelude.{
  Bool, Option, [], any, arith, count_where, false, find?, max, none, refl, replace_first, some,
  true, update_where, ℕ, ◌+◌, ◌<◌, ◌∷◌, ◌≡◌, ◌≤◌,
}
use pe_review_agent.Prelude.Result.{err, ok}
use pe_review_agent.Service.Backoff.{
  IsBounded, exponential_backoff, exponential_backoff-IsBounded, jitter_delta, raw_delay,
}
use pe_review_agent.Service.Retry.{
  RetrySettings, StageError, act_on, can_start_attempt, decide_retry, may_attempt, resume_state,
  retry_budget, schedule_stage_retry,
}
use pe_review_agent.Service.Retry.Bounded.{can_start_attempt-retry_budget}
use pe_review_agent.Service.Retry.Decided.{
  Follows, schedule_stage_retry-Follows, schedule_stage_retry_deadline,
}
use pe_review_agent.Service.Voting.{
  GerritReplies, after_dispatch, after_retry, close_vote, committed, decide_vote, handle_error,
  observe_vote, post_vote, process, process_row, reschedule, send_guarded, sent, transient,
  with_account,
}
use pe_review_agent.Service.Voting.Bounded.{Call, process-MaySend, total_posts, total_posts_bound}
use pe_review_agent.Service.Voting.Sent.{MaySend}
use pe_review_agent.Service.Voting.Spent.{attempts_of}
use pe_review_agent.Tests.Scenario.{
  database, digest, event, fetched, initial, present, reviewed, taken, value, vote_intended,
}

-- `random.uniform` that gives the low end of its range.
abbrev lowest : ℕ → ℕ → ℕ
lowest low high = low

abbrev settings : RetrySettings
settings = record {
  fetch_attempts = 3;
  review_attempts = 2;
  publish_attempts = 3;
  llm_provider_attempts = 5;
  llm_provider_max_wait_seconds = 600;
  backoff = record { base_seconds = 2; max_seconds = 60; jitter_thousandths = 200 };
}

lowest_in_range : (low high : ℕ) → low ≤ high → (low ≤ lowest low high) × (lowest low high ≤ high)
lowest_in_range low high h = (omega arith, h)

exponential_backoff-IsBounded_example :
    IsBounded settings.backoff 4 (exponential_backoff lowest settings.backoff 4)
exponential_backoff-IsBounded_example =
    exponential_backoff-IsBounded lowest settings.backoff 4 (omega arith) lowest_in_range

-- The exponent of attempt 1025 is one too many.
overflows : exponential_backoff lowest settings.backoff 1025 ≡ none
unfolding exponential_backoff raw_delay
overflows = refl

-- Worker 9 may attempt the fetch, and starts it.
abbrev attempted : Db
attempted = database initial (start_attempt 22 0 fetch 9 taken)

can_start_attempt-retry_budget_example :
    count_consumed_retry_attempts 0 fetch attempted ≤ retry_budget settings fetch
unfolding enqueue claim_next start_attempt start_row can_start_attempt may_attempt
    provider_retry_status count_consumed_retry_attempts find_job find? update_where any
    replace_first count_where
can_start_attempt-retry_budget_example =
    can_start_attempt-retry_budget lowest settings 21 22 0 fetch 9 taken taken attempted 1 refl refl
      refl

abbrev unavailable : StageError
unavailable = record {
  error = exception provider_unavailable_error "503";
  retry_after_seconds = some 30;
}

abbrev some_job : Job
some_job = new_job 0 0 (event 1) 5 false

-- An attempt of the review that the provider failed, and its retry.
abbrev review_failed : Db
review_failed = database initial (
    finish_attempt 30 (value 0 (start_attempt 23 0 review 9 reviewed)) false (some true)
      (some unavailable.error) (database initial (start_attempt 23 0 review 9 reviewed)))

abbrev reviewing_job : Job
reviewing_job = present some_job (find_job 0 review_failed)

abbrev review_waits : Db
review_waits = database initial (
    schedule_stage_retry lowest settings 31 33 34 reviewing_job review 9 unavailable false
      review_failed)

schedule_stage_retry_deadline_example :
    (63 + 31 ≤ 30 + 600 + 33) × ((provider_retry_status 0 review review_failed).count < 5)
unfolding enqueue claim_next transition start_attempt start_row finish_attempt schedule_stage_retry
    decide_retry act_on schedule_retry count_consumed_retry_attempts provider_retry_status
    exponential_backoff raw_delay jitter_delta retry_budget find_job find? update_where any
    replace_first count_where
schedule_stage_retry_deadline_example =
    schedule_stage_retry_deadline lowest settings 31 33 34 reviewing_job review 9 unavailable false
      review_failed review_waits (present some_job (find_job 0 review_waits)) 30 refl refl
      (omega arith) refl refl

abbrev lost : StageError
lost = record { error = exception transient_error "timeout"; retry_after_seconds = none }

abbrev fetching_job : Job
fetching_job = present some_job (find_job 0 fetched)

abbrev waiting_db : Db
waiting_db =
    database initial
      (schedule_stage_retry lowest settings 23 25 26 fetching_job fetch 9 lost false fetched)

schedule_stage_retry-Follows_example :
    Step digest fetched waiting_db
    × Follows 25 (resume_state fetch fetching_job) (present some_job (find_job 0 waiting_db)) (
        decide_retry lowest settings 23 fetch lost false
          (count_consumed_retry_attempts 0 fetch fetched)
          (provider_retry_status 0 fetch fetched))
unfolding enqueue claim_next transition schedule_stage_retry decide_retry act_on schedule_retry
    count_consumed_retry_attempts provider_retry_status exponential_backoff raw_delay jitter_delta
    retry_budget find_job find? update_where any replace_first count_where
schedule_stage_retry-Follows_example =
    schedule_stage_retry-Follows digest 23 25 26 fetching_job fetch 9 lost lowest settings false
      fetched waiting_db (present some_job (find_job 0 waiting_db)) refl refl

-- Gerrit shows no earlier vote, and its answer to the POST is lost.
abbrev ambiguous_post : GerritReplies
ambiguous_post = record {
  account = ok 77;
  observation = ok (record {
    current_value = some 0;
    can_vote = true;
    marker_found = false;
    label_exists = true;
    is_merged = false;
  });
  guard_reply = some true;
  post = sent (err (transient none "timeout"));
  closed_at = 36;
  dispatched_at = 35;
  counted_at = 37;
  clock_at = 38;
  scheduled_at = 39;
}

abbrev audit : Bool → Option ℕ → Name
audit recovered value = 0

posts_once : (process lowest settings audit 0 9 ambiguous_post true none vote_intended).posts ≡ 1
unfolding process process_row with_account observe_vote decide_vote send_guarded after_dispatch
    dispatch post_vote handle_error retry after_retry reschedule committed schedule_retry close_vote
    enqueue claim_next transition save_review_result_and_mark_ready begin_publication ensure
    find_job find? update_where any replace_first count_where
posts_once = refl

process-MaySend_example :
    (vote : ReviewVote) × (find_vote 0 vote_intended ≡ some vote)
    × MaySend settings ambiguous_post true vote
process-MaySend_example =
    process-MaySend lowest settings audit 0 9 ambiguous_post true none vote_intended
      (ground (arith, posts_once))

abbrev call : Call
call = record {
  worker = 9;
  replies = ambiguous_post;
  allow_vote = true;
  skip_reason = none;
  others = λ (db : Db). db;
}

total_posts_bound_example :
    total_posts lowest settings audit 0 (call ∷ call ∷ []) vote_intended
      + attempts_of (find_vote 0 vote_intended)
    ≤ max (attempts_of (find_vote 0 vote_intended)) 3
total_posts_bound_example =
    total_posts_bound lowest settings audit 0 (call ∷ call ∷ []) vote_intended
      ((λ db. refl), ((λ db. refl), tt))
