-- ===== src/Service/Voting/Spent.antt =====
-- VotePublisher of src/pe_review_agent/voting.py: the requests that it sends are counted in the vote, and
-- stop at the retry budget.
use pe_review_agent.Domain.{JobState, Name}
use pe_review_agent.Jobs.Rows.{Db, ErrorValue, Job, ReviewVote, VoteStatus}
use pe_review_agent.Jobs.StateMachine.{valid_retry_target}
use pe_review_agent.Jobs.Store.{find_job, on_job-ok, put_job}
use pe_review_agent.Jobs.Store.Lifecycle.{schedule_retry, schedule_retry_row}
use pe_review_agent.Jobs.Votes.{
  dispatch, dispatch_row, find_vote, finish, finish_row, guard_vote, put_vote, retry, retry_row,
}
use pe_review_agent.Jobs.Votes.Kept.{finish-ok}
use pe_review_agent.Prelude.{
  Bool-cases, Option, String, ap, arith, find?, find?-replace_first, find?_passes, inl, inr, none,
  refl, some, subst, ℕ, ◌+◌, ◌==◌, ◌≡◌,
}
use pe_review_agent.Prelude.Result.{>>=-eq-ok, ok}

abbrev pub attempts_of : Option ReviewVote → ℕ
attempts_of none = 0
attempts_of (some v) = v.attempts

-- No transaction of a vote but `dispatch` changes its number of attempts.
find_vote-put :
    (i : ℕ) (v w : ReviewVote) (db : Db)
    → find_vote i db ≡ some v
    → w.job_id ≡ v.job_id
    → find_vote i (put_vote w db) ≡ some w
find_vote-put i v w db h e =
    let passes = find?_passes (λ (x : ReviewVote). x.job_id == i) db.votes h in
    let same : w.job_id ≡ i = ground arith in
    let found : find? (λ (x : ReviewVote). x.job_id == w.job_id) db.votes ≡ some v = rw same h in
    subst (λ (n : ℕ). find? (λ (x : ReviewVote). x.job_id == n) (put_vote w db).votes ≡ some w) same
      (find?-replace_first (λ (x : ReviewVote). x.job_id == w.job_id) w db.votes found
        (ground arith))

find_vote-job_id : (i : ℕ) (db : Db) (v : ReviewVote) → find_vote i db ≡ some v → v.job_id ≡ i
find_vote-job_id i db v h =
    let passes = find?_passes (λ (x : ReviewVote). x.job_id == i) db.votes h in ground arith

-- A row that a transaction makes of the vote that it reads.
record Rewrites (more : ℕ) (o : Option ReviewVote) (w : ReviewVote) : Type 0 where
  old : ReviewVote
  found : o ≡ some old
  same_job : w.job_id ≡ old.job_id
  counted : w.attempts ≡ old.attempts + more

attempts_of-put :
    (more i : ℕ) (w : ReviewVote) (db : Db)
    → Rewrites more (find_vote i db) w
    → attempts_of (find_vote i (put_vote w db)) ≡ attempts_of (find_vote i db) + more
attempts_of-put more i w db r =
    let found = find_vote-put i r.old w db r.found r.same_job in
    let old = ap attempts_of r.found in
    let new = ap attempts_of found in let count = r.counted in omega arith

finish_row-Rewrites :
    (status : VoteStatus) (response : Option Name) (error : Option String) (account : Option ℕ)
    (o : Option ReviewVote) (w : ReviewVote)
    → finish_row status response error account o ≡ ok w
    → Rewrites 0 o w
unfolding finish_row
finish_row-Rewrites status response error account none w h = cc
finish_row-Rewrites status response error none (some v) w h = record {
  old = v;
  found = refl;
  same_job = ground arith;
  counted = ground arith;
}
finish_row-Rewrites status response error (some a) (some v) w h = record {
  old = v;
  found = refl;
  same_job = ground arith;
  counted = ground arith;
}

retry_row-Rewrites :
    (error : String) (o : Option ReviewVote) (w : ReviewVote)
    → retry_row error o ≡ ok w
    → Rewrites 0 o w
unfolding retry_row
retry_row-Rewrites error none w h = cc
retry_row-Rewrites error (some v) w h = record {
  old = v;
  found = refl;
  same_job = ground arith;
  counted = ground arith;
}

dispatch_row-Rewrites :
    (account : ℕ) (o : Option ReviewVote) (w : ReviewVote)
    → dispatch_row account o ≡ ok w
    → Rewrites 1 o w
unfolding dispatch_row
dispatch_row-Rewrites account none w h = cc
dispatch_row-Rewrites account (some v) w h = record {
  old = v;
  found = refl;
  same_job = ground arith;
  counted = ground arith;
}

module _ (i : ℕ) where
  -- The transactions that keep the count.
  pub finish-attempts :
      (now : ℕ) (worker : Name) (status : VoteStatus) (response : Option Name)
      (error : Option String) (account : Option ℕ) (db db' : Db) (u : Unit {0})
      → finish now i worker status response error account db ≡ ok (db', u)
      → attempts_of (find_vote i db') ≡ attempts_of (find_vote i db)
  unfolding put_job
  finish-attempts now worker status response error account db db' u h =
      let (job, v, e, c, f, s) = finish-ok now i worker status response error account db db' u h in
      let k =
        attempts_of-put 0 i v db
          (finish_row-Rewrites status response error account (find_vote i db) v f) in
      let same = ap (λ (d : Db). attempts_of (find_vote i d)) s in omega arith

  pub retry-attempts :
      (now : ℕ) (worker : Name) (error : String) (db db' : Db) (w : ReviewVote)
      → retry now i worker error db ≡ ok (db', w)
      → attempts_of (find_vote i db') ≡ attempts_of (find_vote i db)
  unfolding retry
  retry-attempts now worker error db db' w h =
      let (job, e, f) = >>=-eq-ok (guard_vote now worker (find_job i db)) _ h in
      let (v, g, k) = >>=-eq-ok (retry_row error (find_vote i db)) _ f in
      let put = attempts_of-put 0 i v db (retry_row-Rewrites error (find_vote i db) v g) in
      let s : put_vote v db ≡ db' = cc in
      let same = ap (λ (d : Db). attempts_of (find_vote i d)) s in omega arith

  pub dispatch-attempts :
      (now : ℕ) (worker : Name) (account : ℕ) (db db' : Db) (w : ReviewVote)
      → dispatch now i worker account db ≡ ok (db', w)
      → attempts_of (find_vote i db') ≡ attempts_of (find_vote i db) + 1
  unfolding dispatch
  dispatch-attempts now worker account db db' w h =
      let (job, e, f) = >>=-eq-ok (guard_vote now worker (find_job i db)) _ h in
      let (v, g, k) = >>=-eq-ok (dispatch_row account (find_vote i db)) _ f in
      let put = attempts_of-put 1 i v db (dispatch_row-Rewrites account (find_vote i db) v g) in
      let s : put_vote v db ≡ db' = cc in
      let same = ap (λ (d : Db). attempts_of (find_vote i d)) s in omega arith

  pub schedule_retry-attempts :
      (now : ℕ) (target : JobState) (at : ℕ) (error : ErrorValue) (worker : Name) (db db' : Db)
      (j : Job)
      → schedule_retry now i target at error worker db ≡ ok (db', j)
      → attempts_of (find_vote i db') ≡ attempts_of (find_vote i db)
  unfolding schedule_retry put_job
  schedule_retry-attempts now target at error worker db db' j h =
      elim (Bool-cases (valid_retry_target target)) [
        | inl t ↦
            let (a, b, c, e) =
              on_job-ok i (schedule_retry_row now target at error worker) db db' j (rw t at h) in
            ap (λ (x : Db). attempts_of (find_vote i x)) e
        | inr f ↦ absurd (cc (rw f at h))
      ]
