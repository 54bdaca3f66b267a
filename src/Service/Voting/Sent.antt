-- ===== src/Service/Voting/Sent.antt =====
-- VotePublisher of src/pe_review_agent/voting.py: when a vote is sent, and how often.
use pe_review_agent.Domain.{Name}
use pe_review_agent.Gerrit.Observation.{VoteObservation}
use pe_review_agent.Jobs.Rows.{Db, ReviewVote, StoreError, VoteStatus}
use pe_review_agent.Jobs.Votes.{dispatch, find_vote, is_terminal_vote}
use pe_review_agent.Prelude.{
  Bool, Option, String, arith, false, if_intro, inl, inr, is_none, is_some_eq, leb, none, not, refl,
  some, subst, true, ℕ, ◌&&◌, ◌+◌, ◌<◌, ◌||◌, ◌≡◌, ◌⊎◌,
}
use pe_review_agent.Prelude.Result.{Result, err, ok}
use pe_review_agent.Service.Retry.{RetrySettings}
use pe_review_agent.Service.Voting.{
  GerritError, GerritReplies, Processed, after_dispatch, close_vote, decide_vote, observe_vote,
  post_vote, process_row, same_value, send_guarded, with_account,
}
use pe_review_agent.Service.Voting.Counted.{
  IsSent, IsSpent, close_vote-IsSpent, handle_error-IsSpent, post_vote-IsSent,
}
use pe_review_agent.Service.Voting.Spent.{attempts_of, dispatch-attempts}

-- What holds where a request is sent.
pub record MaySend (s : RetrySettings) (r : GerritReplies) (allow_vote : Bool) (vote : ReviewVote)
    : Type 0 where
  pub vote_allowed : allow_vote ≡ true
  pub open_vote : is_terminal_vote vote.status ≡ false
  pub attempts_left : vote.attempts < s.publish_attempts
  pub retries_left : vote.retry_count < s.publish_attempts
  pub observation : VoteObservation
  pub observed : r.observation ≡ ok observation
  pub unmarked : observation.marker_found ≡ false
  pub unmerged : observation.is_merged ≡ false
  pub permitted : observation.can_vote ≡ true
  pub guarded_by : r.guard_reply ≡ some true

module _ (uniform : ℕ → ℕ → ℕ) (s : RetrySettings) (response_of : Bool → Option ℕ → Name) (i : ℕ)
    (worker : Name) where
  -- Nothing is sent, or one more request is counted and at most one is sent.
  abbrev pub Sends : Type 0 → Db → Processed → Type 0
  Sends May db p =
      IsSpent i 0 (attempts_of (find_vote i db)) p
      ⊎ (IsSent i (attempts_of (find_vote i db) + 1) p × May)

  after_dispatch-Sends :
      (May : Type 0) (r : GerritReplies) (account : ℕ) (db : Db)
      (o : Result StoreError (Db × ReviewVote))
      → ((x : Db × ReviewVote)
          → o ≡ ok x
          → attempts_of (find_vote i (x.0)) ≡ attempts_of (find_vote i db) + 1)
      → May
      → Sends May db (after_dispatch uniform s response_of i worker r account db o)
  unfolding after_dispatch
  after_dispatch-Sends May r account db (err e) k may = inl (record { sends = refl; counts = refl })
  after_dispatch-Sends May r account db (ok (db', vote)) k may = inr (
    subst
        (λ (n : ℕ). IsSent i n (post_vote uniform s response_of i worker r vote account db' r.post))
        (k (db', vote) refl)
        (post_vote-IsSent uniform s response_of i worker r vote account db' r.post),
    may,
  )

  send_guarded-Sends :
      (May : Type 0) (r : GerritReplies) (account : ℕ) (db : Db) (g : Option Bool)
      → (g ≡ some true → May)
      → Sends May db (send_guarded uniform s response_of i worker r account db g)
  unfolding send_guarded
  send_guarded-Sends May r account db none may = inl (record { sends = refl; counts = refl })
  send_guarded-Sends May r account db (some false) may = inl (
      close_vote-IsSpent uniform s response_of i worker r.closed_at 0 VoteStatus.skipped none _ none
        db)
  send_guarded-Sends May r account db (some true) may =
      after_dispatch-Sends May r account db (dispatch r.dispatched_at i worker account db)
        (λ x h. dispatch-attempts i r.dispatched_at worker account db (x.0) (x.1) h) (may refl)

  closes :
      {May : Type 0} (r : GerritReplies) (status : VoteStatus) (response : Option Name)
      (error : Option String) (account : Option ℕ) (db : Db)
      → Sends May db
          (close_vote uniform s response_of i worker r.closed_at 0 status response error account db)
  closes r status response error account db = inl (
      close_vote-IsSpent uniform s response_of i worker r.closed_at 0 status response error account
        db)

  module _ (r : GerritReplies) (allow_vote : Bool) (vote : ReviewVote) where
    decide_vote-Sends :
        (account : ℕ) (db : Db) (o : VoteObservation)
        → r.observation ≡ ok o
        → allow_vote ≡ true
        → is_terminal_vote vote.status ≡ false
        → Sends
            (MaySend s r allow_vote vote)
            db
            (decide_vote uniform s response_of i worker r vote account db o)
    unfolding decide_vote
    decide_vote-Sends account db o e a t =
        let P = Sends (MaySend s r allow_vote vote) db in
        let over =
          leb s.publish_attempts vote.attempts || leb s.publish_attempts vote.retry_count in
        if_intro P o.marker_found _ _
          (λ _.
            if_intro P (o.label_exists && same_value o.current_value vote.value) _ _
              (λ _. closes r VoteStatus.applied _ none (some account) db)
              (λ _. closes r VoteStatus.failed none _ none db))
          λ marked.
            if_intro P o.is_merged _ _ (λ _. closes r VoteStatus.skipped none _ (some account) db)
              λ merged.
                if_intro P (not o.can_vote) _ _
                  (λ _. closes r VoteStatus.failed none _ (some account) db)
                  λ can.
                    if_intro P over _ _ (λ _. closes r VoteStatus.failed none _ none db)
                      λ left.
                        send_guarded-Sends (MaySend s r allow_vote vote) r account db r.guard_reply
                          (λ g. record {
                            vote_allowed = a;
                            open_vote = t;
                            attempts_left = ground arith;
                            retries_left = ground arith;
                            observation = o;
                            observed = e;
                            unmarked = marked;
                            unmerged = merged;
                            permitted = ground arith;
                            guarded_by = g;
                          })

    observe_vote-Sends :
        (account : ℕ) (db : Db) (o : Result GerritError VoteObservation)
        → r.observation ≡ o
        → allow_vote ≡ true
        → is_terminal_vote vote.status ≡ false
        → Sends
            (MaySend s r allow_vote vote)
            db
            (observe_vote uniform s response_of i worker r vote account db o)
    unfolding observe_vote
    observe_vote-Sends account db (err x) e a t =
        inl (handle_error-IsSpent uniform s response_of i worker r false 0 db x)
    observe_vote-Sends account db (ok o) e a t = decide_vote-Sends account db o e a t

    with_account-Sends :
        (db : Db) (o : Result GerritError ℕ)
        → allow_vote ≡ true
        → is_terminal_vote vote.status ≡ false
        → Sends
            (MaySend s r allow_vote vote)
            db
            (with_account uniform s response_of i worker r vote db o)
    unfolding with_account
    with_account-Sends db (err x) a t =
        inl (handle_error-IsSpent uniform s response_of i worker r false 0 db x)
    with_account-Sends db (ok account) a t =
        if_intro (Sends (MaySend s r allow_vote vote) db)
          (is_none vote.account_id || is_some_eq vote.account_id account) _ _
          (λ _. observe_vote-Sends account db r.observation refl a t)
          (λ _. closes r VoteStatus.failed none _ none db)

    pub row-Sends :
        (skip_reason : Option String) (db : Db)
        → Sends
            (MaySend s r allow_vote vote)
            db
            (process_row uniform s response_of i worker r allow_vote skip_reason db (some vote))
    unfolding process_row
    row-Sends skip_reason db =
        let P = Sends (MaySend s r allow_vote vote) db in
        if_intro P (is_terminal_vote vote.status) _ _ (λ _. closes r vote.status none none none db)
          λ t.
            if_intro P allow_vote _ _ (λ a. with_account-Sends db r.account a t)
              (λ _. closes r VoteStatus.skipped none _ none db)
