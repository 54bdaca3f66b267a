-- ===== src/Service/Voting.antt =====
-- VotePublisher of src/pe_review_agent/voting.py: a vote is sent to Gerrit at most as often as its retry
-- budget allows. What Gerrit answers, and what the caller's `guard` answers, are arguments; each
-- transaction stands at a time of its own, and no other worker writes between those of one call.
-- What precedes `{exc}` in two texts is left out.
pub mod Spent
pub mod Counted
pub mod Sent
pub mod Bounded
use pe_review_agent.Domain.{Name, publishing}
use pe_review_agent.Gerrit.Observation.{VoteObservation}
use pe_review_agent.Jobs.Rows.{Db, ReviewVote, StoreError, VoteStatus, exception, transient_error}
use pe_review_agent.Jobs.Store.Lifecycle.{schedule_retry}
use pe_review_agent.Jobs.Votes.{dispatch, find_vote, finish, is_terminal_vote, retry}
use pe_review_agent.Prelude.{
  Bool, Option, String, false, if◌then◌else◌, is_none, is_some_eq, leb, max, none, not, some, true,
  ℕ, ◌&&◌, ◌+◌, ◌==◌, ◌||◌,
}
use pe_review_agent.Prelude.Result.{Result, err, ok}
use pe_review_agent.Service.Backoff.{exponential_backoff}
use pe_review_agent.Service.Retry.{RetrySettings, or_backoff, or_else}

-- The exceptions of the Gerrit client: SupersededRevisionError, ChangeNotOpenError with whether the
-- status is MERGED, another PermanentError, and TransientError with its `retry_after_seconds`.
pub data GerritError : Type 0 where
  superseded_revision : GerritError
  change_not_open : Bool → String → GerritError
  permanent : String → GerritError
  transient : Option ℕ → String → GerritError

-- `publish_review_input`: it raises before the POST, by the client or by the guard, or it sends it and
-- gives the label's value in the response, if that is an integer.
pub data PostReply : Type 0 where
  not_sent : GerritError → PostReply
  guard_raises : PostReply
  sent : Result GerritError (Option ℕ) → PostReply

-- What the world answers to one call of `process`; a guard that raises is none.
pub record GerritReplies : Type 0 where
  pub account : Result GerritError ℕ
  pub observation : Result GerritError VoteObservation
  pub guard_reply : Option Bool
  pub post : PostReply
  pub closed_at : ℕ
  pub counted_at : ℕ
  pub clock_at : ℕ
  pub dispatched_at : ℕ
  pub scheduled_at : ℕ

-- What a call leaves: the requests that it sent, and what it returns, none where it raises.
pub record Processed : Type 0 where
  pub db : Db
  pub posts : ℕ
  pub returned : Option Bool

-- `observation.current_value == vote.value`; None equals no integer.
abbrev pub same_value : Option ℕ → Option ℕ → Bool
same_value (some n) (some m) = n == m
same_value _ _ = false

-- A transaction whose exception leaves `process`.
unfoldable pub committed {ℓ} : {A : Type ℓ} → Bool → ℕ → Db → Result StoreError (Db × A) → Processed
committed answer posts db (err e) = record { db = db; posts = posts; returned = none }
committed answer posts db (ok r) = record { db = r.0; posts = posts; returned = some answer }

module _ (uniform : ℕ → ℕ → ℕ) (s : RetrySettings) (response_of : Bool → Option ℕ → Name) (i : ℕ)
    (worker : Name) where
  -- The inner `finish`: the vote and its job are closed, and `process` returns True.
  unfoldable pub close_vote :
      ℕ → ℕ → VoteStatus → Option Name → Option String → Option ℕ → Db → Processed
  unfolding finish committed
  close_vote now posts status response error account db =
      committed true posts db (finish now i worker status response error account db)

  -- The new attempt, after the wait; an OverflowError leaves `process`.
  unfoldable pub reschedule : GerritReplies → ℕ → String → Db → Option ℕ → Processed
  unfolding schedule_retry committed
  reschedule r posts text db none = record { db = db; posts = posts; returned = none }
  reschedule r posts text db (some delay) = committed false posts db (
      schedule_retry r.scheduled_at i publishing (r.clock_at + max 1 delay)
        (exception transient_error text) worker db)

  -- What follows the retry that was counted.
  unfoldable pub after_retry :
      GerritReplies
      → Bool
      → ℕ
      → Option ℕ
      → String
      → Db
      → Result StoreError (Db × ReviewVote)
      → Processed
  unfolding close_vote reschedule exponential_backoff
  after_retry r posted posts retry_after text db (err e) = record {
    db = db;
    posts = posts;
    returned = none;
  }
  after_retry r posted posts retry_after text db (ok (db', vote)) =
      if leb s.publish_attempts vote.retry_count && not posted
      then close_vote r.closed_at posts VoteStatus.failed none (some text) none db'
      else reschedule r posts text db'
          (or_backoff retry_after (exponential_backoff uniform s.backoff vote.retry_count))

  -- The `except` clauses.
  unfoldable pub handle_error : GerritReplies → Bool → ℕ → Db → GerritError → Processed
  unfolding close_vote after_retry retry
  handle_error r posted posts db superseded_revision =
      close_vote r.closed_at posts VoteStatus.skipped none
        (some "Patch Set superseded; no further vote requests sent.") none db
  handle_error r posted posts db (change_not_open true text) =
      close_vote r.closed_at posts VoteStatus.skipped none
        (some
          "Change merged after review; comments remain published and no Code-Review vote was sent.")
        none db
  handle_error r posted posts db (change_not_open false text) =
      close_vote r.closed_at posts VoteStatus.failed none (some text) none db
  handle_error r posted posts db (permanent text) =
      close_vote r.closed_at posts VoteStatus.failed none (some text) none db
  handle_error r posted posts db (transient retry_after text) =
      after_retry r posted posts retry_after text db (retry r.counted_at i worker text db)

  -- The response to the POST.
  unfoldable pub confirm : GerritReplies → ReviewVote → ℕ → Db → Option ℕ → Processed
  unfolding close_vote
  confirm r vote account db label =
      if same_value label vote.value
      then close_vote r.closed_at 1 VoteStatus.applied (some (response_of false label)) none
          (some account) db
      else close_vote r.closed_at 1 VoteStatus.failed none
          (some
            "Gerrit did not confirm the requested Code-Review value; the label may have been ignored. Review comments remain published.")
          none db

  unfoldable pub post_vote : GerritReplies → ReviewVote → ℕ → Db → PostReply → Processed
  unfolding handle_error confirm
  post_vote r vote account db (not_sent e) = handle_error r true 0 db e
  post_vote r vote account db guard_raises = record { db = db; posts = 0; returned = none }
  post_vote r vote account db (sent (err e)) = handle_error r true 1 db e
  post_vote r vote account db (sent (ok label)) = confirm r vote account db label

  -- The intent is recorded before the request is sent.
  unfoldable pub after_dispatch :
      GerritReplies → ℕ → Db → Result StoreError (Db × ReviewVote) → Processed
  unfolding post_vote
  after_dispatch r account db (err e) = record { db = db; posts = 0; returned = none }
  after_dispatch r account db (ok (db', vote)) = post_vote r vote account db' r.post

  unfoldable pub send_guarded : GerritReplies → ℕ → Db → Option Bool → Processed
  unfolding close_vote after_dispatch dispatch
  send_guarded r account db none = record { db = db; posts = 0; returned = none }
  send_guarded r account db (some false) =
      close_vote r.closed_at 0 VoteStatus.skipped none
        (some "A newer Patch Set exists; vote not sent.") none db
  send_guarded r account db (some true) =
      after_dispatch r account db (dispatch r.dispatched_at i worker account db)

  -- What follows the observation.
  unfoldable pub decide_vote : GerritReplies → ReviewVote → ℕ → Db → VoteObservation → Processed
  unfolding close_vote send_guarded
  decide_vote r vote account db o =
      let close = λ (status : VoteStatus) (error : Option String) (a : Option ℕ).
        close_vote r.closed_at 0 status none error a db in
      if o.marker_found
      then (if o.label_exists && same_value o.current_value vote.value
          then close_vote r.closed_at 0 VoteStatus.applied (some (response_of true vote.value)) none
              (some account) db
          else close VoteStatus.failed
              (some
                "The vote message exists but the current bot label differs or was not applied. It was not overwritten.")
              none)
      else (if o.is_merged
          then close VoteStatus.skipped
              (some
                "Change merged after review; no prior bot vote marker was found, so no new Code-Review vote was sent.")
              (some account)
          else (if not o.can_vote
              then close VoteStatus.failed
                  (some
                    "Code-Review label is absent or the bot lacks permission for the requested value.")
                  (some account)
              else (if leb s.publish_attempts vote.attempts
                    || leb s.publish_attempts vote.retry_count
                  then close VoteStatus.failed
                      (some
                        "Vote retry budget exhausted. An earlier request may be unconfirmed; review comments remain published.")
                      none
                  else send_guarded r account db r.guard_reply)))

  unfoldable pub observe_vote :
      GerritReplies → ReviewVote → ℕ → Db → Result GerritError VoteObservation → Processed
  unfolding handle_error decide_vote
  observe_vote r vote account db (err e) = handle_error r false 0 db e
  observe_vote r vote account db (ok o) = decide_vote r vote account db o

  unfoldable pub with_account : GerritReplies → ReviewVote → Db → Result GerritError ℕ → Processed
  unfolding handle_error close_vote observe_vote
  with_account r vote db (err e) = handle_error r false 0 db e
  with_account r vote db (ok account) =
      if is_none vote.account_id || is_some_eq vote.account_id account
      then observe_vote r vote account db r.observation
      else close_vote r.closed_at 0 VoteStatus.failed none
          (some "Gerrit bot account changed; vote was not replayed.") none db

  -- `process` on the vote that it read; a reason that is none is None or the empty text.
  unfoldable pub process_row :
      GerritReplies → Bool → Option String → Db → Option ReviewVote → Processed
  unfolding close_vote with_account
  process_row r allow_vote skip_reason db none = record { db = db; posts = 0; returned = none }
  process_row r allow_vote skip_reason db (some vote) =
      if is_terminal_vote vote.status
      then close_vote r.closed_at 0 vote.status none none none db
      else (if allow_vote
          then with_account r vote db r.account
          else close_vote r.closed_at 0 VoteStatus.skipped none
              (some (
                or_else skip_reason
                  "Patch Set superseded; no new vote sent. Any earlier unconfirmed vote request remains in the audit."))
              none db)

  -- `VotePublisher.process`
  unfoldable pub process : GerritReplies → Bool → Option String → Db → Processed
  unfolding process_row
  process r allow_vote skip_reason db = process_row r allow_vote skip_reason db (find_vote i db)
