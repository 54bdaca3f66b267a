-- ===== src/Service/Voting/Bounded.antt =====
-- VotePublisher of src/pe_review_agent/voting.py: a vote is sent only where it may be, and over all the calls
-- for a job no more often than its budget.
use pe_review_agent.Domain.{Name}
use pe_review_agent.Jobs.Rows.{Db, ReviewVote}
use pe_review_agent.Jobs.Votes.{find_vote}
use pe_review_agent.Prelude.{
  All, Bool, List, Option, String, [], ap, arith, inl, inr, max, none, refl, some, ℕ, ◌+◌, ◌∷◌, ◌≡◌,
  ◌≢◌, ◌≤◌,
}
use pe_review_agent.Service.Retry.{RetrySettings}
use pe_review_agent.Service.Voting.{GerritReplies, Processed, process, process_row}
use pe_review_agent.Service.Voting.Sent.{MaySend, row-Sends}
use pe_review_agent.Service.Voting.Spent.{attempts_of}

-- The calls for one job, by any workers, and what else happens to the tables after each.
pub record Call : Type 0 where
  pub worker : Name
  pub replies : GerritReplies
  pub allow_vote : Bool
  pub skip_reason : Option String
  pub others : Db → Db

module _ (uniform : ℕ → ℕ → ℕ) (s : RetrySettings) (response_of : Bool → Option ℕ → Name)
    (i : ℕ) where
  row_sent :
      (worker : Name) (r : GerritReplies) (allow_vote : Bool) (skip_reason : Option String)
      (db : Db) (o : Option ReviewVote)
      → find_vote i db ≡ o
      → (process_row uniform s response_of i worker r allow_vote skip_reason db o).posts ≢ 0
      → (vote : ReviewVote) × (o ≡ some vote) × MaySend s r allow_vote vote
  unfolding process_row
  row_sent worker r allow_vote skip_reason db none e h = absurd (h refl)
  row_sent worker r allow_vote skip_reason db (some vote) e h =
      elim (row-Sends uniform s response_of i worker r allow_vote vote skip_reason db) [
        | inl spent ↦ absurd (h spent.sends)
        | inr (posted, may) ↦ (vote, refl, may)
      ]

  -- A call of `process` that sends the vote to Gerrit was allowed to vote and found a vote that is not
  -- closed, with fewer requests and fewer retries than the budget; Gerrit showed no message of an earlier
  -- request, a change that is not merged and the permission to vote; and the guard held.
  pub process-MaySend :
      (worker : Name) (r : GerritReplies) (allow_vote : Bool) (skip_reason : Option String)
      (db : Db)
      → (process uniform s response_of i worker r allow_vote skip_reason db).posts ≢ 0
      → (vote : ReviewVote) × (find_vote i db ≡ some vote) × MaySend s r allow_vote vote
  unfolding process
  process-MaySend worker r allow_vote skip_reason db h =
      row_sent worker r allow_vote skip_reason db (find_vote i db) refl h

  -- What one call adds to the requests is added to the count, up to the budget.
  record IsBounded (before : Db) (p : Processed) : Type 0 where
    covered : p.posts + attempts_of (find_vote i before) ≤ attempts_of (find_vote i p.db)
    bounded :
        attempts_of (find_vote i p.db) ≤ max (attempts_of (find_vote i before)) s.publish_attempts

  row-IsBounded :
      (worker : Name) (r : GerritReplies) (allow_vote : Bool) (skip_reason : Option String)
      (db : Db) (o : Option ReviewVote)
      → find_vote i db ≡ o
      → IsBounded db (process_row uniform s response_of i worker r allow_vote skip_reason db o)
  unfolding process_row
  row-IsBounded worker r allow_vote skip_reason db none e = record {
    covered = omega arith;
    bounded = omega arith;
  }
  row-IsBounded worker r allow_vote skip_reason db (some vote) e =
      let now = ap attempts_of e in
      elim (row-Sends uniform s response_of i worker r allow_vote vote skip_reason db) [
        | inl spent ↦
            let a = spent.sends in
            let b = spent.counts in record { covered = omega arith; bounded = omega arith }
        | inr (posted, may) ↦
            let a = posted.sends in
            let b = posted.counts in
            let c = may.attempts_left in record { covered = omega arith; bounded = omega arith }
      ]

  process-IsBounded :
      (worker : Name) (r : GerritReplies) (allow_vote : Bool) (skip_reason : Option String)
      (db : Db)
      → IsBounded db (process uniform s response_of i worker r allow_vote skip_reason db)
  unfolding process
  process-IsBounded worker r allow_vote skip_reason db =
      row-IsBounded worker r allow_vote skip_reason db (find_vote i db) refl

  abbrev pub KeepsCount : Call → Type 0
  KeepsCount c = (db : Db) → attempts_of (find_vote i (c.others db)) ≡ attempts_of (find_vote i db)

  -- The requests that the calls send.
  unfoldable pub total_posts : List Call → Db → ℕ
  unfolding process
  total_posts [] db = 0
  total_posts (c ∷ cs) db =
      let p = process uniform s response_of i c.worker c.replies c.allow_vote c.skip_reason db in
      p.posts + total_posts cs (c.others p.db)

  -- However often `process` is called for a job, by whichever workers and whatever Gerrit answers, it sends
  -- no more requests than the budget has left for the vote, where what happens between the calls leaves
  -- the vote's count alone.
  pub total_posts_bound :
      (calls : List Call) (db : Db)
      → All KeepsCount calls
      → total_posts calls db + attempts_of (find_vote i db)
        ≤ max (attempts_of (find_vote i db)) s.publish_attempts
  unfolding total_posts
  total_posts_bound [] db h = omega arith
  total_posts_bound (c ∷ cs) db h =
      let p = process uniform s response_of i c.worker c.replies c.allow_vote c.skip_reason db in
      let b = process-IsBounded c.worker c.replies c.allow_vote c.skip_reason db in
      let x = b.covered in
      let y = b.bounded in
      let z = h.0 p.db in let ih = total_posts_bound cs (c.others p.db) h.1 in omega arith
