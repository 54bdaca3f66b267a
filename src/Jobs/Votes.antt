-- ===== src/Jobs/Votes.antt =====
-- src/pe_review_agent/jobs/votes.py: the durable intent to vote, fenced by the lease of a PUBLISHING
-- job. The audit trail `events` is left out.
pub mod Kept
pub mod Closed
use pe_review_agent.Domain.{Name, publishing, state_eq}
use pe_review_agent.Jobs.Rows.{
  Db, Job, Publication, ReviewVote, StoreError, Tx, VoteReason, VoteStatus, account_changed,
  comments_not_durable, key_error, not_a_terminal_status, not_publishing, vote_missing_or_terminal,
}
use pe_review_agent.Jobs.Store.{find_job, put_job, require_live_lease}
use pe_review_agent.Jobs.Store.Lifecycle.{is_posted, publication_of}
use pe_review_agent.Jobs.Store.Publications.{finalize_row}
use pe_review_agent.Prelude.{
  Bool, Option, String, false, find?, if◌then◌else◌, is_none, is_some_eq, none, not, replace_first,
  some, true, ℕ, ◌+◌, ◌==◌, ◌||◌, ◌∷◌,
}
use pe_review_agent.Prelude.Result.{Result, err, guard, ok, ◌>>=◌, ◌>>◌}

-- TERMINAL_VOTE_STATES
abbrev pub is_terminal_vote : VoteStatus → Bool
is_terminal_vote VoteStatus.applied = true
is_terminal_vote VoteStatus.failed = true
is_terminal_vote VoteStatus.skipped = true
is_terminal_vote _ = false

-- VoteDecision of src/pe_review_agent/review/project_policy.py; the value is 1 or 0.
pub record VoteDecision : Type 0 where
  pub value : Option ℕ
  pub reason : VoteReason
  pub finding_count : Option ℕ

-- `_guard` on the row that it selected.
unfoldable pub guard_vote : ℕ → Name → Option Job → Result StoreError Job
unfolding require_live_lease
guard_vote now worker none = err key_error
guard_vote now worker (some job) = do
  require_live_lease now job worker
  guard (state_eq job.state publishing) not_publishing
  ok job

abbrev pub find_vote : ℕ → Db → Option ReviewVote
find_vote i db = find? (λ v. v.job_id == i) db.votes

abbrev pub put_vote : ReviewVote → Db → Db
put_vote v db = record db { votes = replace_first (λ w. w.job_id == v.job_id) v db.votes }

-- `VoteStore.ensure`: the vote is inserted once.
unfoldable pub ensure : ℕ → ℕ → Name → VoteDecision → Name → Tx ReviewVote
unfolding find_job guard_vote
ensure now i worker decision payload db = do
  _ ← guard_vote now worker (find_job i db)
  elim (find_vote i db) [
    | some v ↦ ok (db, v)
    | none ↦
        let v : ReviewVote = record {
          job_id = i;
          value = decision.value;
          reason = decision.reason;
          finding_count = decision.finding_count;
          status = elim decision.value [ none ↦ VoteStatus.skipped | some n ↦ VoteStatus.pending ];
          account_id = none;
          attempts = 0;
          retry_count = 0;
          request_payload = payload;
          response = none;
          last_error = none;
        } in
        ok (record db { votes = v ∷ db.votes }, v)
  ]

-- What `dispatch` does to the vote that it read: a POST is recorded before it is made.
unfoldable pub dispatch_row : ℕ → Option ReviewVote → Result StoreError ReviewVote
dispatch_row account none = err vote_missing_or_terminal
dispatch_row account (some v) = do
  guard (not (is_terminal_vote v.status)) vote_missing_or_terminal
  guard (is_none v.account_id || is_some_eq v.account_id account) account_changed
  ok (record v {
    account_id = some account;
    attempts = v.attempts + 1;
    status = VoteStatus.ambiguous;
  })

-- `VoteStore.dispatch`
unfoldable pub dispatch : ℕ → ℕ → Name → ℕ → Tx ReviewVote
unfolding find_job guard_vote dispatch_row
dispatch now i worker account db = do
  _ ← guard_vote now worker (find_job i db)
  v ← dispatch_row account (find_vote i db)
  ok (put_vote v db, v)

unfoldable pub retry_row : String → Option ReviewVote → Result StoreError ReviewVote
retry_row error none = err key_error
retry_row error (some v) =
    ok (record v { retry_count = v.retry_count + 1; last_error = some error })

-- `VoteStore.retry`; the cut of the error's text at 2000 characters is left out.
unfoldable pub retry : ℕ → ℕ → Name → String → Tx ReviewVote
unfolding find_job guard_vote retry_row
retry now i worker error db = do
  _ ← guard_vote now worker (find_job i db)
  v ← retry_row error (find_vote i db)
  ok (put_vote v db, v)

-- What `finish` does to the vote that it read: a terminal vote stays as it is.
unfoldable pub finish_row :
    VoteStatus
    → Option Name
    → Option String
    → Option ℕ
    → Option ReviewVote
    → Result StoreError ReviewVote
finish_row status response error account none = err key_error
finish_row status response error account (some v) =
    let closed = record v { status = status; response = response; last_error = error } in
    if is_terminal_vote v.status then ok v else elim account [
      | none ↦ ok closed
      | some a ↦
          if is_none v.account_id || is_some_eq v.account_id a
          then ok (record closed { account_id = some a })
          else err account_changed
    ]

-- `publication is not None and publication.status == "POSTED"`
abbrev pub comments_durable : Option Publication → Bool
comments_durable none = false
comments_durable (some p) = is_posted p.status

-- `VoteStore.finish`: the vote is closed, and the job is DONE.
unfoldable pub finish :
    ℕ → ℕ → Name → VoteStatus → Option Name → Option String → Option ℕ → Tx (Unit {0})
unfolding find_job put_job guard_vote finish_row finalize_row
finish now i worker status response error account db = do
  guard (is_terminal_vote status) not_a_terminal_status
  job ← guard_vote now worker (find_job i db)
  guard (comments_durable (publication_of i db)) comments_not_durable
  v ← finish_row status response error account (find_vote i db)
  ok (put_job (finalize_row false job) (put_vote v db), tt)
