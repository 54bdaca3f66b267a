-- ===== src/Service/Voting/Counted.antt =====
-- VotePublisher of src/pe_review_agent/voting.py: what follows a request, or stands in its place, keeps the
-- count.
use pe_review_agent.Domain.{Name, publishing}
use pe_review_agent.Jobs.Rows.{Db, ReviewVote, StoreError, VoteStatus, exception, transient_error}
use pe_review_agent.Jobs.Store.Lifecycle.{schedule_retry}
use pe_review_agent.Jobs.Votes.{find_vote, finish, retry}
use pe_review_agent.Prelude.{
  Bool, Option, String, arith, false, if_intro, leb, max, none, not, refl, some, subst, true, ℕ,
  ◌&&◌, ◌+◌, ◌≡◌, ◌≤◌,
}
use pe_review_agent.Prelude.Result.{Result, err, ok}
use pe_review_agent.Service.Backoff.{exponential_backoff}
use pe_review_agent.Service.Retry.{RetrySettings, or_backoff}
use pe_review_agent.Service.Voting.{
  GerritError, GerritReplies, PostReply, Processed, after_retry, change_not_open, close_vote,
  committed, confirm, guard_raises, handle_error, not_sent, permanent, post_vote, reschedule,
  same_value, sent, superseded_revision, transient,
}
use pe_review_agent.Service.Voting.Spent.{
  attempts_of, finish-attempts, retry-attempts, schedule_retry-attempts,
}

-- The call has sent so many requests, and the vote counts so many.
pub record IsSpent (i posts attempts : ℕ) (p : Processed) : Type 0 where
  pub sends : p.posts ≡ posts
  pub counts : attempts_of (find_vote i p.db) ≡ attempts

-- At most one request, after the intent was counted.
pub record IsSent (i attempts : ℕ) (p : Processed) : Type 0 where
  pub sends : p.posts ≤ 1
  pub counts : attempts_of (find_vote i p.db) ≡ attempts

module _ (uniform : ℕ → ℕ → ℕ) (s : RetrySettings) (response_of : Bool → Option ℕ → Name) (i : ℕ)
    (worker : Name) where
  committed-IsSpent :
      {A : Type 0} (answer : Bool) (posts : ℕ) (db : Db) (o : Result StoreError (Db × A))
      → ((r : Db × A) → o ≡ ok r → attempts_of (find_vote i (r.0)) ≡ attempts_of (find_vote i db))
      → IsSpent i posts (attempts_of (find_vote i db)) (committed answer posts db o)
  unfolding committed
  committed-IsSpent answer posts db (err e) k = record { sends = refl; counts = refl }
  committed-IsSpent answer posts db (ok r) k = record { sends = refl; counts = k r refl }

  pub close_vote-IsSpent :
      (now posts : ℕ) (status : VoteStatus) (response : Option Name) (error : Option String)
      (account : Option ℕ) (db : Db)
      → IsSpent i posts
          (attempts_of (find_vote i db))
          (close_vote uniform s response_of i worker now posts status response error account db)
  unfolding close_vote
  close_vote-IsSpent now posts status response error account db =
      committed-IsSpent true posts db (finish now i worker status response error account db)
        (λ r h. finish-attempts i now worker status response error account db (r.0) (r.1) h)

  reschedule-IsSpent :
      (r : GerritReplies) (posts : ℕ) (text : String) (db : Db) (o : Option ℕ)
      → IsSpent i posts
          (attempts_of (find_vote i db))
          (reschedule uniform s response_of i worker r posts text db o)
  unfolding reschedule
  reschedule-IsSpent r posts text db none = record { sends = refl; counts = refl }
  reschedule-IsSpent r posts text db (some delay) =
      let error = exception transient_error text in
      let at = r.clock_at + max 1 delay in
      committed-IsSpent false posts db
        (schedule_retry r.scheduled_at i publishing at error worker db)
        (λ x h.
          schedule_retry-attempts i r.scheduled_at publishing at error worker db (x.0) (x.1) h)

  after_retry-IsSpent :
      (r : GerritReplies) (posted : Bool) (posts : ℕ) (retry_after : Option ℕ) (text : String)
      (db : Db) (o : Result StoreError (Db × ReviewVote))
      → ((x : Db × ReviewVote)
          → o ≡ ok x
          → attempts_of (find_vote i (x.0)) ≡ attempts_of (find_vote i db))
      → IsSpent i posts
          (attempts_of (find_vote i db))
          (after_retry uniform s response_of i worker r posted posts retry_after text db o)
  unfolding after_retry
  after_retry-IsSpent r posted posts retry_after text db (err e) k = record {
    sends = refl;
    counts = refl;
  }
  after_retry-IsSpent r posted posts retry_after text db (ok (db', vote)) k =
      subst
        (λ (n : ℕ). IsSpent i posts n (
          after_retry uniform s response_of i worker r posted posts retry_after text db
            (ok (db', vote))))
        (k (db', vote) refl)
        (if_intro (IsSpent i posts (attempts_of (find_vote i db')))
          (leb s.publish_attempts vote.retry_count && not posted) _ _
          (λ _. close_vote-IsSpent r.closed_at posts VoteStatus.failed none (some text) none db')
          (λ _.
            reschedule-IsSpent r posts text db'
              (or_backoff retry_after (exponential_backoff uniform s.backoff vote.retry_count))))

  pub handle_error-IsSpent :
      (r : GerritReplies) (posted : Bool) (posts : ℕ) (db : Db) (e : GerritError)
      → IsSpent i posts
          (attempts_of (find_vote i db))
          (handle_error uniform s response_of i worker r posted posts db e)
  unfolding handle_error
  handle_error-IsSpent r posted posts db superseded_revision =
      close_vote-IsSpent r.closed_at posts VoteStatus.skipped none _ none db
  handle_error-IsSpent r posted posts db (change_not_open true text) =
      close_vote-IsSpent r.closed_at posts VoteStatus.skipped none _ none db
  handle_error-IsSpent r posted posts db (change_not_open false text) =
      close_vote-IsSpent r.closed_at posts VoteStatus.failed none (some text) none db
  handle_error-IsSpent r posted posts db (permanent text) =
      close_vote-IsSpent r.closed_at posts VoteStatus.failed none (some text) none db
  handle_error-IsSpent r posted posts db (transient retry_after text) =
      after_retry-IsSpent r posted posts retry_after text db (retry r.counted_at i worker text db)
        (λ x h. retry-attempts i r.counted_at worker text db (x.0) (x.1) h)

  IsSent-of_IsSpent :
      (posts attempts : ℕ) (p : Processed)
      → posts ≤ 1
      → IsSpent i posts attempts p
      → IsSent i attempts p
  IsSent-of_IsSpent posts attempts p h k =
      let e = k.sends in record { sends = omega arith; counts = k.counts }

  pub post_vote-IsSent :
      (r : GerritReplies) (vote : ReviewVote) (account : ℕ) (db : Db) (reply : PostReply)
      → IsSent i
          (attempts_of (find_vote i db))
          (post_vote uniform s response_of i worker r vote account db reply)
  unfolding post_vote confirm
  post_vote-IsSent r vote account db (not_sent e) =
      IsSent-of_IsSpent 0 (attempts_of (find_vote i db)) _ (omega arith)
        (handle_error-IsSpent r true 0 db e)
  post_vote-IsSent r vote account db guard_raises = record { sends = omega arith; counts = refl }
  post_vote-IsSent r vote account db (sent (err e)) =
      IsSent-of_IsSpent 1 (attempts_of (find_vote i db)) _ (omega arith)
        (handle_error-IsSpent r true 1 db e)
  post_vote-IsSent r vote account db (sent (ok label)) =
      if_intro (IsSent i (attempts_of (find_vote i db))) (same_value label vote.value) _ _
        (λ _.
          IsSent-of_IsSpent 1 (attempts_of (find_vote i db)) _ (omega arith)
            (close_vote-IsSpent r.closed_at 1 VoteStatus.applied _ none (some account) db))
        λ _.
          IsSent-of_IsSpent 1 (attempts_of (find_vote i db)) _ (omega arith)
            (close_vote-IsSpent r.closed_at 1 VoteStatus.failed none _ none db)
